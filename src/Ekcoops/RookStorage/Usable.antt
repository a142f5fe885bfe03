-- ===== src/Ekcoops/RookStorage/Usable.antt =====
-- The nodes that are handed to Rook for storage.
use ekco.Prelude.{
  String, ◌≡◌, refl, Bool, ◌&&◌, ◌||◌, List, [], ◌∷◌, arith, ◌==◌, if◌then◌else◌, any, contains,
}
use ekco.Kube.{Node, CephCluster}
use ekco.Util.Node.{node_is_ready}
use ekco.Cluster.Storage.{is_storage_node}
use ekco.Ekcoops.RookStorage.{label_text, should_use_node_for_storage, usable_names}

-- Whether a listed node of that name is ready and wanted.
abbrev pub wanted : CephCluster → String → Bool → Node → Bool
wanted cluster storage_label manage_nodes node =
    if manage_nodes
    then is_storage_node cluster.storage_nodes node.name
    else storage_label == "" || any (λ label. storage_label == label_text label) node.labels

-- A name is handed over exactly if a listed node of that name is ready and, in this order: is in the
-- CephCluster's own list where that list is the user's; or no label is configured; or it has the label.
pub usable_names_lem :
    (cluster : CephCluster) (storage_label : String) (manage_nodes : Bool) (nodes : List Node)
    (name : String)
    → contains (usable_names cluster storage_label manage_nodes nodes) name
      ≡ any
          (λ node.
            node_is_ready node
            && wanted cluster storage_label manage_nodes node
            && node.name == name)
          nodes
unfolding should_use_node_for_storage
usable_names_lem cluster storage_label manage_nodes [] name = refl
usable_names_lem cluster storage_label manage_nodes (node ∷ nodes) name =
    ground (arith, usable_names_lem cluster storage_label manage_nodes nodes name)
