-- ===== src/Graph.antt =====
-- The keys of vertices and edges: internal/api/server/graph/encoding.go. `take` and `drop` are the
-- slices `key[:n]` and `key[n:]` of a key that is long enough; a slice that is out of bounds is the
-- result `panic`.
pub mod RoundTrip
mod Tests
use scout.Base.{
  ℕ, zero, suc, ◌+◌, ◌*◌, ◌/◌, ◌%◌, List, [], ◌∷◌, ◌++◌, if◌then◌else◌, ltb, leb, ◌==◌, nat_eq,
}
use scout.Base.Lists.{length}
use scout.Base.Bytes.{Bytes}

pub record VertexId : Type 0 where
  pub type : ℕ
  pub value : Bytes

pub record EdgeId : Type 0 where
  pub head : VertexId
  pub tail : VertexId
  pub type : ℕ

pub data Decoded {ℓ} (A : Type ℓ) : Type ℓ where
  ok : A → Decoded A
  key_is_too_short value_length_is_zero value_length_too_large : Decoded A
  unexpected_key_padding invalid_head_key invalid_tail_key panic : Decoded A

unfoldable pub take : ℕ → Bytes → Bytes
take zero key = []
take (suc n) [] = []
take (suc n) (b ∷ key) = b ∷ take n key

unfoldable pub drop : ℕ → Bytes → Bytes
drop zero key = key
drop (suc n) [] = []
drop (suc n) (b ∷ key) = drop n key

-- `binary.BigEndian.AppendUint32` and `Uint32`.
unfoldable pub be32 : ℕ → Bytes
be32 n = n / 0x1000000 % 256 ∷ n / 0x10000 % 256 ∷ n / 0x100 % 256 ∷ n % 256 ∷ []

unfoldable pub from_be32 : Bytes → ℕ
from_be32 (a ∷ b ∷ c ∷ d ∷ _) = ((a * 256 + b) * 256 + c) * 256 + d
from_be32 _ = 0

unfoldable pub append_vertex_key : Bytes → VertexId → Bytes
append_vertex_key bytes id =
    ((bytes ++ be32 id.type) ++ be32 (length id.value % 0x100000000)) ++ id.value

unfoldable pub encode_vertex_id : VertexId → Bytes
encode_vertex_id id = append_vertex_key [] id

unfoldable pub decode_vertex_key : Bytes → Decoded (VertexId × ℕ)
decode_vertex_key key =
    if leb (length key) 8
    then key_is_too_short
    else let value_len = from_be32 (drop 4 key) in
      if value_len == 0
      then value_length_is_zero
      else if ltb (length key) (value_len + 8)
      then value_length_too_large
      else ok (record { type = from_be32 key; value = take value_len (drop 8 key) }, value_len + 8)

-- On an error the length that was read is 0.
unfoldable pub decode_vertex_id : Bytes → Decoded VertexId
decode_vertex_id key = elim (decode_vertex_key key) [
  | ok (id, read_len) ↦ if read_len == length key then ok id else unexpected_key_padding
  | key_is_too_short ↦ if 0 == length key then key_is_too_short else unexpected_key_padding
  | _ ↦ unexpected_key_padding
]

unfoldable pub encode_edge_id : EdgeId → Bytes
encode_edge_id id = append_vertex_key (append_vertex_key [] id.head ++ be32 id.type) id.tail

unfoldable pub decode_edge_id : Bytes → Decoded EdgeId
decode_edge_id key = elim (decode_vertex_key key) [
  | ok (head, head_len) ↦
      if ltb (length key) (head_len + 4)
      then panic
      else elim (decode_vertex_key (drop (head_len + 4) key)) [
        | ok (tail, tail_len) ↦
            if head_len + tail_len + 4 == length key
            then ok (record { head = head; tail = tail; type = from_be32 (drop head_len key) })
            else unexpected_key_padding
        | _ ↦ invalid_tail_key
      ]
  | _ ↦ invalid_head_key
]
