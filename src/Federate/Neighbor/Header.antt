-- ===== src/Federate/Neighbor/Header.antt =====
-- The neighbor structure message read back as net_common.h describes it.
use lf_autoware.Base.{
  ℕ, suc, ◌+◌, ◌*◌, ◌/◌, ◌%◌, ◌<◌, ◌^◌, ◌≡◌, refl, ◌↔◌, Option, none, some, List, [], ◌∷◌, arith,
}
use lf_autoware.Federate.Preamble.{Preamble}
use lf_autoware.Federate.Neighbor.{
  Buffer, msg_type_neighbor_structure, msg_type_neighbor_structure_header_size, buffer_size, store,
  send_neighbor_structure_to_rti,
}

-- net_util.h: `encode_int32` writes its four bytes, the lowest order byte first.
abbrev pub IsLittleEndian : (ℕ → List ℕ) → Type 0
IsLittleEndian encode =
    (v : ℕ) → encode v ≡ v % 256 ∷ v / 256 % 256 ∷ v / 65536 % 256 ∷ v / 16777216 % 256 ∷ []

abbrev pub le32 : ℕ → ℕ → ℕ → ℕ → ℕ
le32 a b c d = a + 256 * b + 65536 * c + 16777216 * d

-- The message type and the two counts behind it; `none` if a byte is not set.
abbrev pub read_header : Buffer → Option (ℕ × ℕ × ℕ)
read_header
      (some t ∷ some a ∷ some b ∷ some c ∷ some d ∷ some e ∷ some f ∷ some g ∷ some h ∷ rest) =
    some (t, le32 a b c d, le32 e f g h)
read_header _ = none

le32_bytes :
    (v : ℕ) → v < 2 ^ 31 → le32 (v % 256) (v / 256 % 256) (v / 65536 % 256) (v / 16777216 % 256) ≡ v
le32_bytes v h = omega arith

module _ (encode : ℕ → List ℕ) (little : IsLittleEndian encode) (p : Preamble) where
  -- Whatever the numbers of neighbors, if they fit an `int32_t`, the header of the message that is
  -- sent reads back as the message type and those numbers, and `message_head` ends behind it. It
  -- ends at the end of the buffer if and only if the federate reports no neighbor.
  pub read_header-send_neighbor_structure :
      p.num_upstream < 2 ^ 31
      → p.num_downstream < 2 ^ 31
      → (read_header (send_neighbor_structure_to_rti encode p).0
          ≡ some (msg_type_neighbor_structure, p.num_upstream, p.num_downstream))
        × ((send_neighbor_structure_to_rti encode p).1 ≡ msg_type_neighbor_structure_header_size)
        × (((send_neighbor_structure_to_rti encode p).1 ≡ buffer_size p)
            ↔ ((p.num_upstream ≡ 0) × (p.num_downstream ≡ 0)))
  unfolding send_neighbor_structure_to_rti buffer_size store
  read_header-send_neighbor_structure hu hd =
      (header, refl, (λ e. (omega arith, omega arith), λ (u, d). omega arith))
    where
      nine :
          buffer_size p
          ≡ suc (
              suc (
                suc
                  (suc (suc (suc (suc (suc (suc (p.num_upstream * 10 + p.num_downstream * 2)))))))))
      nine = omega arith

      header :
          read_header (send_neighbor_structure_to_rti encode p).0
          ≡ some (msg_type_neighbor_structure, p.num_upstream, p.num_downstream)
      header =
          rw (nine, little p.num_upstream, little p.num_downstream)
            (ground (arith, le32_bytes p.num_upstream hu, le32_bytes p.num_downstream hd))
