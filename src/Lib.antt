-- ===== src/Lib.antt =====
-- ekco keeps a kURL cluster in order: an operator lists the nodes on an interval and reconciles them,
-- the storage (Rook and Ceph), the certificates and the add-ons; and on request it migrates the storage
-- of the cluster to Rook. This library models the operator, its loop, the controller, the migration, what
-- a rotation does on a node, the admission webhooks, and the commands that change the files of a host.
--
-- How the parts fit together. `Poll` (pkg/ekcoops/poll.go) lists the nodes on every tick and calls
-- `Reconcile` (pkg/ekcoops/operator.go), which calls `reconcileNode` on each node, `reconcileRook` on the
-- storage and the other steps, and collects their errors. They call the controller (pkg/cluster), which
-- talks to the API server, to etcd and, through pods, to Ceph and to the files of the nodes. A request to
-- pkg/server starts the migration (pkg/migrate), which pauses what the operator would undo, copies the
-- objects and moves their consumers (pkg/objectstore), and moves the claims. Before the loop, the operator
-- installs or removes the webhooks (pkg/webhook). Task pods on the nodes run the commands of cmd/ekco/cli.
--
-- State. The program keeps little of its own: the flags of pkg/ekcoops/overrides, a lock, and the round of
-- the loop. All else is in the cluster. Code that calls the cluster is an `Action` (Kube/Actions.antt): it
-- runs against an environment and the trace of the calls made so far, newest first, and gives a result
-- and the longer trace. The environment answers each call, and may use the trace for it, so it stands
-- for any server, any other actor and any fault. A call
-- that it answered without an error is an accepted one (Kube/Accepted). Go's `(value, error)` is `Result`
-- (Errors.antt), and an error is a value that records how it was wrapped or collected.
--
-- Files:
-- - Prelude, Errors, Kube: shared names and lemmas; errors and pkg/util/errors.go; the API objects, the
--   calls and the actions.
-- - Util/Node: pkg/util/node.go.
-- - Cluster/PurgeNode, Cluster/Kubeadm, Cluster/Etcd: pkg/cluster/purge_node.go and pkg/cluster/etcd.go
--   (`PurgeNode` is `purge_node`, `removeKubeadmEndpoint` is `remove_kubeadm_endpoint`, and so on: each
--   function keeps its words).
-- - Cluster/ClearNode: pkg/cluster/clear_node.go.
-- - Cluster/Versions, Cluster/RookVersion: pkg/cluster/constants.go, the versions of
--   pkg/cluster/controller.go, `GetRookVersion` and pkg/rook/cephcluster.go.
-- - Cluster/Exec, Cluster/Replication, Cluster/Storage, Cluster/Daemons, Cluster/Rook: the parts of
--   pkg/cluster/rook_ceph.go (commands in a pod; replication; storage nodes, OSDs and hosts; mons and
--   mgrs; MDS placement and priorities).
-- - Cluster/Csi: `SetCephCSIResources` of pkg/cluster/rook_ceph.go.
-- - Cluster/Certs, Cluster/Tasks: pkg/cluster/certs.go (the schedule; the task pods) and
--   pkg/cluster/set_kubeconfig_server.go.
-- - Cluster/InternalLb: pkg/cluster/internallb.go.
-- - Cluster/RegistryCert, Cluster/ContourCerts, Cluster/Kotsadm: pkg/cluster/registry_cert.go with
--   pkg/util/cert.go, pkg/cluster/contour_certs.go, pkg/cluster/kotsadm.go.
-- - Cluster/Minio, Cluster/Rebalance: pkg/cluster/minio.go.
-- - Cluster/EnsureCeph, Helm: `EnsureCephCluster` of pkg/cluster/rook_ceph.go, and pkg/helm.
-- - Cluster/Filesystem: the wait for a filesystem of pkg/cluster/rook_ceph.go.
-- - Rotate: pkg/rotate/rotate.go. Webhook: the handlers of pkg/webhook. Server: pkg/server/server.go.
-- - Webhook/Install: pkg/webhook/server.go, and what cmd/ekco/cli/operator.go does with it.
-- - Haproxy: pkg/internallb/haproxy.go and its command. PodExec: pkg/k8s/exec.go, what the call
--   `exec_container` answers.
-- - Objectstore: pkg/objectstore. Migrate: pkg/migrate/storage.go.
-- - Util/Restart: pkg/util/restart.go and pkg/util/await_health.go.
-- - Cluster/Envoy: pkg/cluster/contour.go; Cluster/Config: pkg/cluster/types/types.go.
-- - Cli: cmd/ekco/cli, each module for its command: PurgeCommand, RegenCert, SetKubeconfigServer with
--   pkg/kubeconfig, ChangeLoadBalancer, RotateKotsadmCerts, Operator; and Init for cmd/ekco/cli/init.go.
-- - Ekcoops/Config, Overrides, Prometheus, Nodes, RookStorage, Operator, Poll: pkg/ekcoops, with
--   pkg/util/prometheus.go.
-- - Ekcoops/Controller: the controller as the interface `Services` that the operator uses.
-- - Cluster/Quiet and the other modules Quiet: the operations that delete no Node. Objectstore/Keeps: the
--   readings of the trace that a copy and an update leave alone.
-- - Tests: concrete clusters, and the results below at one of them.
-- A module below one of these proves what its name says of it.
--
-- Parameters. The answers of the API server, of etcd, of the commands that run in pods, and of the clock;
-- the order and the parser of github.com/blang/semver; the YAML of a ClusterStatus; kubeadm's endpoint
-- parser and etcd's ports; the client of the object stores, and pvmigrate; the parsing, the generation and
-- the signing of certificates, and kubeadm's names of them; the decoders of an admission review; the text
-- forms of times, durations and numbers; the order in which a loop over a map runs, and what a conversion
-- of an infinite float to int gives; Helm, with the charts and the values that are built in; the templates,
-- and the parsers of addresses, pods and kubeconfig files; viper, which reads the settings, and what a
-- client or the logger says when it is made. `Reconcile` uses the record `Services`;
-- Ekcoops/Controller fills it.
--
-- Approximations. Counts, sizes and settings that are Go ints are natural numbers (a negative limit of ready
-- control-plane nodes is refused as 0 is), and times and durations are seconds; no arithmetic on them can reach the width of an int. Logging is left out, and of an
-- error's text only the fixed part is kept. The values that a context carries, and its cancellation
-- inside a call, are part of the answers. A JSON patch is marshalled without a failure. An etcd member
-- has a first peer URL. A map is an association list, and its order is one that Go may take.
-- The goroutine that reconciles minio is one call in `reconcile` and is modelled on its own; a migration
-- that is started likewise. Every loop is structural recursion over what the server listed, over the
-- events of the `select`, or over the number of waits that end before the context does (`waits_left`): a
-- run in which a wait never ends is no run of the model. A quotient of two numbers of pods and nodes is
-- exact in a float64. The replacement texts of regular expressions have no `$`, and a write to a nil map,
-- which panics, is not modelled. The commands that are sent to the HAProxy pods at once are sent one after
-- the other, since what they return is only logged.
--
-- Not modelled: `GenerateHAProxyConfig`, which executes a template; the D-Bus call that restarts the kubelet;
-- the flags of the commands, and those that only call what is modelled; the timeout of a reconcile. Streams to pods,
-- HTTP and TLS servers, logging and build metadata are I/O.
pub mod Prelude
pub mod Errors
pub mod Kube
pub mod Util
pub mod Cluster
pub mod Ekcoops
pub mod Objectstore
pub mod Migrate
pub mod Rotate
pub mod Webhook
pub mod Helm
pub mod Haproxy
pub mod PodExec
pub mod Server
pub mod Cli
pub mod Tests
