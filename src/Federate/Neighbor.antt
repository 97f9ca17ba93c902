-- ===== src/Federate/Neighbor.antt =====
-- `lf_send_neighbor_structure_to_RTI` of the generated preambles: the bytes that it writes.
-- `encode_int32` is runtime code and a parameter.
pub mod Header
use lf_autoware.Base.{ℕ, suc, ◌+◌, ◌*◌, Option, none, some, List, [], ◌∷◌, set, replicate}
use lf_autoware.Federate.Preamble.{Preamble}

-- net_common.h
abbrev pub msg_type_neighbor_structure : ℕ
msg_type_neighbor_structure = 24

abbrev pub msg_type_neighbor_structure_header_size : ℕ
msg_type_neighbor_structure_header_size = 9

-- A stack buffer whose bytes are not set at first.
abbrev pub Buffer : Type 0
Buffer = List (Option ℕ)

-- 1 + 8 + upstream * (sizeof(uint16_t) + sizeof(int64_t)) + downstream * sizeof(uint16_t)
unfoldable pub buffer_size : Preamble → ℕ
buffer_size p = 1 + 8 + p.num_upstream * (2 + 8) + p.num_downstream * 2

-- Bytes stored one after another from an index on.
unfoldable pub store : ℕ → List ℕ → Buffer → Buffer
store i [] b = b
store i (x ∷ xs) b = store (suc i) xs (set b i (some x))

module _ (encode_int32 : ℕ → List ℕ) where
  -- `buffer_to_send` and `message_head` when the socket write is made. No preamble has upstream or
  -- downstream federates, so none of them writes more than the header.
  unfoldable pub send_neighbor_structure_to_rti : Preamble → Buffer × ℕ
  unfolding buffer_size store
  send_neighbor_structure_to_rti p =
      let b0 : Buffer = replicate (buffer_size p) none in
      let b1 = set b0 0 (some msg_type_neighbor_structure) in
      let b2 = store 1 (encode_int32 p.num_upstream) b1 in
      let b3 = store (1 + 4) (encode_int32 p.num_downstream) b2 in (b3, 1 + 4 + 4)
