-- ===== src/Locality/Tests.antt =====
-- A batch of two references, one of a full buffer, and the theorems on them.
use nids.Prelude.{ℕ, ◌≡◌, List, [], ◌∷◌, ◌++◌, take, arith}
use mathlib.Core.List.{Perm}
use nids.Locality.{
  max_batch_size, PacketRef, default_ref, new, clear, ok, add_packet, group_packets,
  get_bucket_slice,
}
use nids.Locality.Batch.{
  Filled, IsClear, add_packet-Filled, clear-IsClear, IsClear-Filled, new-IsClear,
}
use nids.Locality.Grouping.{get_bucket_slice-group_packets}
use nids.Locality.Drain.{
  add_all, process_block, add_all-Filled, process_block-Filled, drain, drain-Perm,
}

abbrev to_port : ℕ → PacketRef
to_port port = record default_ref { port_key = port }

abbrev two_refs : List PacketRef
two_refs = to_port 443 ∷ to_port 53 ∷ []

new-Filled : Filled new []
new-Filled = IsClear-Filled new-IsClear

two_refs-Filled : Filled (add_all new two_refs) two_refs
two_refs-Filled = add_all-Filled new [] two_refs new-Filled (omega arith)

add_packet-Filled_example :
    let (result, b') = add_packet (add_all new two_refs) (to_port 80) in
    (result ≡ ok) × Filled b' (two_refs ++ (to_port 80 ∷ []))
add_packet-Filled_example = add_packet-Filled (to_port 80) two_refs-Filled (omega arith)

clear-IsClear_example : IsClear (clear (add_all new two_refs))
clear-IsClear_example = clear-IsClear two_refs-Filled

get_bucket_slice-group_packets_example :
    get_bucket_slice (group_packets (add_all new two_refs)) 53 ≡ to_port 53 ∷ []
get_bucket_slice-group_packets_example = get_bucket_slice-group_packets 53 two_refs-Filled

process_block-Filled_example :
    Filled
      (process_block (add_all new two_refs) (to_port 80 ∷ []))
      (take max_batch_size (to_port 80 ∷ []))
process_block-Filled_example =
    process_block-Filled (add_all new two_refs) two_refs (to_port 80 ∷ []) two_refs-Filled

drain-Perm_example :
    Perm (drain (process_block (add_all new two_refs) two_refs)) (take max_batch_size two_refs)
drain-Perm_example = drain-Perm two_refs two_refs-Filled
