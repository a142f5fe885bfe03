-- ===== src/Kube.antt =====
-- What the program sees of the cluster: the API objects and the calls that it makes. The servers that
-- answer are not part of the repository; `Env` stands for them.
mod Objects
mod Ceph
mod Kubeadm
mod Stores
mod Tasks
mod Hooks
mod Files
mod Calls
mod Actions
mod Laws
mod Readings
mod Accepted
pub use Objects.*
pub use Ceph.*
pub use Kubeadm.*
pub use Stores.*
pub use Tasks.*
pub use Hooks.*
pub use Files.*
pub use Calls.*
pub use Actions.*
pub use Laws.*
pub use Readings.*
pub use Accepted.*
