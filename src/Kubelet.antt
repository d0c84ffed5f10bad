-- ===== src/Kubelet.antt =====
-- mvp/cmd/kubelet/main.go: one round over the pods of the node. `exec args` stands for running
-- `docker` with the arguments, and `listens name` for `net.Listen` on a free port of the loopback
-- interface. The stub servers are a map from pods to ports. What a round sends are status
-- updates, whose errors are only logged.
pub mod Rounds
use kubernetes_style_orchest.Prelude.{
  String, ◌==◌, string_eq, Bool, Option, none, some, List, [], ◌∷◌, ◌++◌, StringMap, lookup, insert,
  keep, any, concat, trim_space, if◌then◌else◌,
}
use kubernetes_style_orchest.Prelude.Int.{ℤ, pos}
use kubernetes_style_orchest.Api.{
  Pod, PodStatus, Container, phase_scheduled, phase_running, phase_failed,
}

-- How a container was started, or the text of the error.
pub data Started : Type 0 where
  started : String → String → ℤ → Started
  start_failed : String → Started

-- The output of a command, or its error and what it wrote to the standard error.
pub data Executed : Type 0 where
  printed : String → Executed
  exec_failed : String → String → Executed

-- The port of a listener, or the error of `net.Listen`.
pub data Listened : Type 0 where
  bound : ℤ → Listened
  refused : String → Listened

unfoldable pub docker_args : String → Container → List String
docker_args pod_name c =
    ("run" ∷ "-d" ∷ "--name" ∷ concat "mk-" pod_name ∷ c.image ∷ []) ++ c.command ++ c.args

-- The result of `docker run`, after a stale container was removed.
unfoldable pub docker_started : Executed → Started
unfolding trim_space
docker_started (printed out) = started (trim_space out) "" (pos 0)
docker_started (exec_failed e output) = start_failed (concat e (concat ": " (trim_space output)))

-- `patch` with the status of a pod that failed.
unfoldable pub failed_status : Pod → String → PodStatus
failed_status p message = record {
  phase = phase_failed;
  node_name = p.status.node_name;
  container_id = "";
  message = message;
  pod_ip = "";
  host_port = pos 0;
  last_updated = 0;
}

unfoldable pub status_after : Pod → Started → PodStatus
unfolding failed_status
status_after p (start_failed e) = failed_status p (concat "run failed: " e)
status_after p (started container_id pod_ip host_port) = record {
  phase = phase_running;
  node_name = p.status.node_name;
  container_id = container_id;
  message = "started";
  pod_ip = pod_ip;
  host_port = host_port;
  last_updated = 0;
}

-- `stubRun` with the server that the pod has and the new listener: a pod that has a server keeps it.
unfoldable pub stub_with : String → Option ℤ → Listened → StringMap ℤ → Started × StringMap ℤ
stub_with pod_name (some port) l stubs = (started (concat "stub-" pod_name) "127.0.0.1" port, stubs)
stub_with pod_name none (refused e) stubs = (start_failed (concat "stub listen: " e), stubs)
stub_with pod_name none (bound port) stubs =
    (started (concat "stub-" pod_name) "127.0.0.1" port, insert pod_name port stubs)

module _ (exec : List String → Executed) (listens : String → Listened) (use_docker : Bool) where
  unfoldable pub stub_run : String → StringMap ℤ → Started × StringMap ℤ
  unfolding stub_with
  stub_run pod_name stubs = stub_with pod_name (lookup pod_name stubs) (listens pod_name) stubs

  unfoldable pub run_container : String → Container → StringMap ℤ → Started × StringMap ℤ
  unfolding docker_args docker_started stub_run
  run_container pod_name c stubs =
      if use_docker
      then (docker_started (exec (docker_args pod_name c)), stubs)
      else stub_run pod_name stubs

  unfoldable pub run_with : Pod → List Container → StringMap ℤ → PodStatus × StringMap ℤ
  unfolding run_container status_after failed_status
  run_with p [] stubs = (failed_status p "no containers", stubs)
  run_with p (c ∷ cs) stubs =
      let ran = run_container p.metadata.name c stubs in (status_after p ran.0, ran.1)

  -- `runPod`: the status that it sends, and the stub servers.
  unfoldable pub run_pod : Pod → StringMap ℤ → PodStatus × StringMap ℤ
  unfolding run_with
  run_pod p stubs = run_with p p.spec.containers stubs

  -- The loop of `syncOnce`.
  unfoldable pub run_pods : List Pod → StringMap ℤ → List (String × PodStatus) × StringMap ℤ
  unfolding run_pod
  run_pods [] stubs = ([], stubs)
  run_pods (p ∷ ps) stubs =
      let ran = run_pod p stubs in
      let rest = run_pods ps ran.1 in
      let skipped = run_pods ps stubs in
      if p.status.phase == phase_scheduled
      then ((p.metadata.name, ran.0) ∷ rest.0, rest.1)
      else skipped

  -- The servers of pods that are not listed are shut down.
  unfoldable pub reap : List Pod → StringMap ℤ → StringMap ℤ
  reap pods stubs = keep (λ e. any (λ p. p.metadata.name == e.0) pods) stubs

  unfoldable pub sync_once : List Pod → StringMap ℤ → List (String × PodStatus) × StringMap ℤ
  unfolding run_pods reap
  sync_once pods stubs =
      let (patches, servers) = run_pods pods stubs in (patches, reap pods servers)
