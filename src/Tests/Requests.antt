-- ===== src/Tests/Requests.antt =====
-- mvp/cmd/apiserver: requests to a small server over an empty database.
use kubernetes_style_orchest.Prelude.{
  String, string_eq, some, List, [], ◌∷◌, ◌≡◌, ◌≢◌, ◌⊎◌, refl, if◌then◌else◌, ◌==◌, Member,
}
use kubernetes_style_orchest.Api.{Pod, webhook_type_validating}
use kubernetes_style_orchest.Db.{WebhookRow, ServiceRow}
use kubernetes_style_orchest.Sql.{not_found, after, ok, err}
use kubernetes_style_orchest.Sql.Reads.{SameTables}
use kubernetes_style_orchest.Sql.Rows.{select}
use kubernetes_style_orchest.Store.Pods.Refinement.{
  read, put, drop, answers, map_answers, map_of, answers-map,
}
use kubernetes_style_orchest.Store.Scaling.{list_webhooks, webhook_of_row}
use kubernetes_style_orchest.Store.Services.Rows.{upserted}
use kubernetes_style_orchest.CustomResources.{parse_path}
use kubernetes_style_orchest.Admission.{Reviewed}
use kubernetes_style_orchest.Admission.Sound.{Allowed, Strict}
use kubernetes_style_orchest.ApiServer.ClusterIps.Free.{IsFree}
use kubernetes_style_orchest.ApiServer.Guard.Authorized.{Refused, LetThrough}
use kubernetes_style_orchest.ApiServer.Handlers.Pods.{create_pod_reply}
use kubernetes_style_orchest.ApiServer.Handlers.Pods.Created.{Admitted, create_pod-Admitted}
use kubernetes_style_orchest.ApiServer.Handlers.Services.{taken_of, store_service, set_cluster_ip}
use kubernetes_style_orchest.ApiServer.Handlers.Services.Addresses.{used_ips, new_service-IsFree}
use kubernetes_style_orchest.ApiServer.Handlers.Custom.{handle_dynamic_cr}
use kubernetes_style_orchest.ApiServer.Invariant.{Consistent}
use kubernetes_style_orchest.ApiServer.Invariant.Served.{Arrival, serve_all, serve_all-Consistent}
use kubernetes_style_orchest.ApiServer.Routes.{guarded, pods, hpas, services}
use kubernetes_style_orchest.ApiServer.Routes.Serve.{refusal, handler, serve}
use kubernetes_style_orchest.ApiServer.Routes.Reading.{serve-Reads}
use kubernetes_style_orchest.ApiServer.Routes.Authorized.{
  UntouchedOrGranted, serve-Authorized, handle_dynamic_cr-Authorized,
}
use kubernetes_style_orchest.Tests.Data.{no_rows, told_apart, pod_of}
use kubernetes_style_orchest.Tests.ServerData.{
  one_container, web_service, no_answer, small_server, loop_alloc, post_to, get_from,
}

serve-Authorized_example :
    Refused
      (refusal hpas loop_alloc)
      (serve small_server hpas loop_alloc
        (get_from "/apis/autoscaling.mk.io/v1/horizontalpodautoscalers")
        no_rows)
      no_rows
    ⊎ LetThrough small_server.to_lower
        (refusal hpas loop_alloc)
        "autoscaling.mk.io"
        "horizontalpodautoscalers"
        (get_from "/apis/autoscaling.mk.io/v1/horizontalpodautoscalers")
        (handler small_server hpas loop_alloc
          (get_from "/apis/autoscaling.mk.io/v1/horizontalpodautoscalers"))
        (serve small_server hpas loop_alloc
          (get_from "/apis/autoscaling.mk.io/v1/horizontalpodautoscalers")
          no_rows)
        no_rows
unfolding guarded
serve-Authorized_example =
    serve-Authorized small_server refl hpas loop_alloc
      (get_from "/apis/autoscaling.mk.io/v1/horizontalpodautoscalers") no_rows "autoscaling.mk.io"
      "horizontalpodautoscalers" refl

handle_dynamic_cr-Authorized_example :
    UntouchedOrGranted small_server refl
      (parse_path "/apis/shop.io/v1/carts")
      (get_from "/apis/shop.io/v1/carts")
      (handle_dynamic_cr small_server.to_lower small_server.rbac_enforce
        small_server.read_custom_resource small_server.now
        (get_from "/apis/shop.io/v1/carts")
        no_rows)
      no_rows
handle_dynamic_cr-Authorized_example =
    handle_dynamic_cr-Authorized small_server refl (get_from "/apis/shop.io/v1/carts") no_rows

serve-Reads_example :
    SameTables no_rows
      (after (serve small_server pods loop_alloc (get_from "/api/v1/pods") no_rows))
serve-Reads_example =
    serve-Reads small_server pods loop_alloc (get_from "/api/v1/pods") refl no_rows

create_pod-Admitted_example :
    (text : String) × (sent : Pod) × (x : Reviewed) × (p : Pod) × (some "{}" ≡ some text)
    × (some one_container ≡ some sent)
    × Admitted no_answer small_server.uid small_server.marshal_pod small_server.read_pod 7 sent x p
        no_rows
        (after (
          create_pod_reply no_answer small_server.uid small_server.marshal_pod small_server.read_pod
            7
            (post_to "/api/v1/pods")
            no_rows))
    × ((row : String × WebhookRow)
        → Member row no_rows.admission_webhooks
        → Strict no_answer small_server.uid "pods" "Pod" "CREATE" sent.metadata.name
            sent.metadata.namespace webhook_type_validating
            (webhook_of_row row)
        → Allowed no_answer small_server.uid "pods" "Pod" "CREATE" sent.metadata.name
            sent.metadata.namespace
            (webhook_of_row row)
            x.object)
unfolding create_pod_reply list_webhooks select
create_pod-Admitted_example =
    create_pod-Admitted no_answer small_server.uid small_server.marshal_pod small_server.read_pod 7
      (post_to "/api/v1/pods") no_rows (_, refl)

new_service-IsFree_example :
    (ip : String) × IsFree small_server.address (taken_of (ok (used_ips no_rows))) ip
    × ((row : String × ServiceRow) → Member row no_rows.services → row.1.cluster_ip ≢ ip)
    × ((k : String)
        → select k
            (after (
              store_service small_server.address small_server.read_service 7 loop_alloc web_service
                (err not_found)
                no_rows)).services
          ≡ (if web_service.metadata.name == k
              then some (
                  upserted 7
                    (set_cluster_ip ip web_service)
                    (select web_service.metadata.name no_rows.services))
              else select k no_rows.services))
unfolding store_service select
new_service-IsFree_example =
    new_service-IsFree small_server.address small_server.read_service 7 loop_alloc web_service
      not_found no_rows _ _ refl (λ n. told_apart "127.20.0.9" "" refl) refl refl refl

abbrev history : List Arrival
history =
    record {
      server = small_server;
      route = hpas;
      request = post_to "/apis/autoscaling.mk.io/v1/horizontalpodautoscalers";
    }
    ∷ record { server = small_server; route = services; request = post_to "/api/v1/services" }
    ∷ []

abbrev at_first : Consistent no_rows
at_first = record { hpas = tt; services = tt; users = tt; webhooks = tt; crds = tt }

serve_all-Consistent_example : Consistent (serve_all history loop_alloc no_rows)
serve_all-Consistent_example = serve_all-Consistent history loop_alloc no_rows at_first

answers-map_example :
    answers (put 3 (pod_of "web" [] "") ∷ read "web" ∷ drop "api" ∷ []) no_rows
    ≡ map_answers (put 3 (pod_of "web" [] "") ∷ read "web" ∷ drop "api" ∷ []) (map_of no_rows)
answers-map_example =
    answers-map (put 3 (pod_of "web" [] "") ∷ read "web" ∷ drop "api" ∷ []) no_rows (λ n. refl)
