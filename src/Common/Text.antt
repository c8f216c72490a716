-- ===== src/Common/Text.antt =====
-- The texts of include/common/Common.hpp: a message and a layer as they are logged.
use Prim.Native.String.{String}
use memory_tiering.Base.{List, [], ◌∷◌}
use memory_tiering.Common.{
  OperationType, read, write, end, PageLayer, numa_local, numa_remote, pmem, ClientMessage,
}
use memory_tiering.Logger.{Piece, string, number}

-- `op_type == OperationType::READ ? "READ" : "WRITE"`
unfoldable pub operation_name : OperationType → String
operation_name read = "READ"
operation_name write = "WRITE"
operation_name end = "WRITE"

-- `ClientMessage::toString`
unfoldable pub to_string : {F : Type 0} → ClientMessage → List (Piece F)
to_string msg =
    string "Client "
    ∷ number msg.client_id
    ∷ string ", PageId: "
    ∷ number msg.pid
    ∷ string ", Offset: "
    ∷ number msg.p_offset
    ∷ string ", Operation: "
    ∷ string (operation_name msg.op_type)
    ∷ []

-- `operator<<` of a layer
unfoldable pub layer_name : PageLayer → String
layer_name numa_local = "NUMA_LOCAL"
layer_name numa_remote = "NUMA_REMOTE"
layer_name pmem = "PMEM"
