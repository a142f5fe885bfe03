-- ===== src/Cli.antt =====
-- cmd/ekco/cli: the commands.
pub mod Init
pub mod PurgeCommand
pub mod RegenCert
pub mod SetKubeconfigServer
pub mod ChangeLoadBalancer
pub mod Operator
pub mod RotateKotsadmCerts
