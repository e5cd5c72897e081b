-- ===== src/Graph/RoundTrip.antt =====
-- Decoding the keys of vertices and edges gives them back.
use scout.Base.{
  ℕ, suc, ◌≡◌, ◌<◌, ◌+◌, ◌%◌, refl, sym, ap, ◌∙◌, true, false, [], ◌∷◌, ◌++◌, ltb, leb, ◌==◌,
  nat_eq, arith, subst,
}
use mathlib.Core.List.{append-nil, append_assoc}
use scout.Base.Lists.{length, length-append}
use scout.Base.Bytes.{Bytes}
use scout.Graph.{
  VertexId, EdgeId, ok, take, drop, be32, from_be32, append_vertex_key, encode_vertex_id,
  decode_vertex_key, decode_vertex_id, encode_edge_id, decode_edge_id, panic,
}

-- A 32-bit type, and a value that is not empty and whose length is a 32-bit word.
pub record IsVertex (id : VertexId) : Type 0 where
  pub word : id.type < 0x100000000
  pub filled : 0 < length id.value
  pub bounded : length id.value < 0x100000000

take-length : (xs ys : Bytes) → take (length xs) (xs ++ ys) ≡ xs
unfolding take
take-length [] ys = refl
take-length (x ∷ xs) ys = ap (λ l. x ∷ l) (take-length xs ys)

drop-length : (xs ys : Bytes) → drop (length xs) (xs ++ ys) ≡ ys
unfolding drop
drop-length [] ys = refl
drop-length (x ∷ xs) ys = drop-length xs ys

from_be32-be32 : (n : ℕ) (ys : Bytes) → n < 0x100000000 → from_be32 (be32 n ++ ys) ≡ n
unfolding from_be32 be32
from_be32-be32 n ys h = omega arith

-- The key of a vertex, with what follows it.
abbrev vertex_then : VertexId → Bytes → Bytes
vertex_then id rest = be32 id.type ++ (be32 (length id.value) ++ (id.value ++ rest))

length-vertex_then :
    (id : VertexId) (rest : Bytes)
    → length (vertex_then id rest) ≡ length id.value + 8 + length rest
unfolding be32
length-vertex_then id rest = omega (arith, length-append id.value rest)

-- The parts of such a key.
key_type : (id : VertexId) (rest : Bytes) → IsVertex id → from_be32 (vertex_then id rest) ≡ id.type
key_type id rest v = from_be32-be32 id.type (be32 (length id.value) ++ (id.value ++ rest)) v.word

key_length :
    (id : VertexId) (rest : Bytes)
    → IsVertex id
    → from_be32 (drop 4 (vertex_then id rest)) ≡ length id.value
unfolding drop be32
key_length id rest v = from_be32-be32 (length id.value) (id.value ++ rest) v.bounded

key_value :
    (id : VertexId) (rest : Bytes)
    → take (length id.value) (drop 8 (vertex_then id rest)) ≡ id.value
unfolding drop be32
key_value id rest = take-length id.value rest

decode_vertex_key-then :
    (id : VertexId) (rest : Bytes)
    → IsVertex id
    → decode_vertex_key (vertex_then id rest) ≡ ok (id, length id.value + 8)
unfolding decode_vertex_key
decode_vertex_key-then id rest v =
    let long : leb (length (vertex_then id rest)) 8 ≡ false =
      ground (arith, length-vertex_then id rest, v.filled) in
    let filled : (length id.value == 0) ≡ false = ground (arith, v.filled) in
    let fits : ltb (length (vertex_then id rest)) (length id.value + 8) ≡ false =
      ground (arith, length-vertex_then id rest) in
    rw
      (
        decode_vertex_key,
        long,
        key_length id rest v,
        filled,
        fits,
        key_value id rest,
        key_type id rest v,
      )
      refl

append_vertex_key-then :
    (prefix rest : Bytes) (id : VertexId)
    → IsVertex id
    → append_vertex_key prefix id ++ rest ≡ prefix ++ vertex_then id rest
unfolding append_vertex_key
append_vertex_key-then prefix rest id v =
    let word : length id.value % 0x100000000 ≡ length id.value = omega (arith, v.bounded) in
    let a = be32 id.type in
    let b = be32 (length id.value) in
    rw word (
      append_assoc ((prefix ++ a) ++ b) id.value rest
      ∙ (append_assoc (prefix ++ a) b (id.value ++ rest)
          ∙ append_assoc prefix a (b ++ (id.value ++ rest))))

encode_vertex_id-then : (id : VertexId) → IsVertex id → encode_vertex_id id ≡ vertex_then id []
unfolding encode_vertex_id
encode_vertex_id-then id v =
    sym (append-nil (append_vertex_key [] id)) ∙ append_vertex_key-then [] [] id v

decode_vertex_id-then : (id : VertexId) → IsVertex id → decode_vertex_id (vertex_then id []) ≡ ok id
unfolding decode_vertex_id
decode_vertex_id-then id v =
    let whole : (length id.value + 8 == length (vertex_then id [])) ≡ true =
      ground (arith, length-vertex_then id []) in
    rw (decode_vertex_id, decode_vertex_key-then id [] v, whole) refl

-- The key of a vertex with a 32-bit type and a value that is neither empty nor too long for a 32-bit
-- length is decoded to that vertex.
pub decode_vertex_id-encode_vertex_id :
    (id : VertexId) → IsVertex id → decode_vertex_id (encode_vertex_id id) ≡ ok id
decode_vertex_id-encode_vertex_id id v =
    ap decode_vertex_id (encode_vertex_id-then id v) ∙ decode_vertex_id-then id v

drop_more : (xs ys : Bytes) (k : ℕ) → drop (length xs + k) (xs ++ ys) ≡ drop k ys
unfolding drop
drop_more [] ys k = let e : 0 + k ≡ k = omega arith in rw e refl
drop_more (x ∷ xs) ys k =
    let e : suc (length xs) + k ≡ suc (length xs + k) = omega arith in rw e (drop_more xs ys k)

drop_vertex :
    (id : VertexId) (rest : Bytes) (k : ℕ)
    → drop (length id.value + 8 + k) (vertex_then id rest) ≡ drop k rest
unfolding drop be32
drop_vertex id rest k =
    let n = length id.value + k in
    let e : length id.value + 8 + k ≡ suc (suc (suc (suc (suc (suc (suc (suc n))))))) =
      omega arith in
    rw e (drop_more id.value rest k)

-- The key of an edge: its head, its type and its tail.
abbrev edge_then : EdgeId → Bytes
edge_then id = vertex_then id.head (be32 id.type ++ vertex_then id.tail [])

encode_edge_id-then :
    (id : EdgeId) → IsVertex id.head → IsVertex id.tail → encode_edge_id id ≡ edge_then id
unfolding encode_edge_id
encode_edge_id-then id h t =
    let prefix = append_vertex_key [] id.head in
    sym (append-nil (append_vertex_key (prefix ++ be32 id.type) id.tail))
    ∙ (append_vertex_key-then (prefix ++ be32 id.type) [] id.tail t
        ∙ (append_assoc prefix (be32 id.type) (vertex_then id.tail [])
            ∙ append_vertex_key-then [] (be32 id.type ++ vertex_then id.tail []) id.head h))

edge_length :
    (id : EdgeId) → length (edge_then id) ≡ length id.head.value + 8 + (length id.tail.value + 12)
unfolding be32
edge_length id = omega (
  arith,
  length-vertex_then id.head (be32 id.type ++ vertex_then id.tail []),
  length-vertex_then id.tail [],
)

after_type :
    (id : EdgeId) → drop (length id.head.value + 8 + 4) (edge_then id) ≡ vertex_then id.tail []
unfolding be32 drop
after_type id = drop_vertex id.head (be32 id.type ++ vertex_then id.tail []) 4

zero_dropped :
    (id : EdgeId)
    → id.type < 0x100000000
    → from_be32 (drop 0 (be32 id.type ++ vertex_then id.tail [])) ≡ id.type
unfolding drop
zero_dropped id word = from_be32-be32 id.type (vertex_then id.tail []) word

edge_type :
    (id : EdgeId)
    → id.type < 0x100000000
    → from_be32 (drop (length id.head.value + 8) (edge_then id)) ≡ id.type
edge_type id word =
    let rest = be32 id.type ++ vertex_then id.tail [] in
    let e : length id.head.value + 8 + 0 ≡ length id.head.value + 8 = omega arith in
    ap from_be32 (subst (λ n. drop n (edge_then id) ≡ drop 0 rest) e (drop_vertex id.head rest 0))
    ∙ zero_dropped id word

decode_edge_id-then :
    (id : EdgeId)
    → IsVertex id.head
    → IsVertex id.tail
    → id.type < 0x100000000
    → decode_edge_id (edge_then id) ≡ ok id
unfolding decode_edge_id
decode_edge_id-then id h t word =
    let rest = be32 id.type ++ vertex_then id.tail [] in
    let size : length (edge_then id) ≡ length id.head.value + 8 + (length id.tail.value + 12) =
      edge_length id in
    let fits : ltb (length (edge_then id)) (length id.head.value + 8 + 4) ≡ false =
      ground (arith, size) in
    let tail : drop (length id.head.value + 8 + 4) (edge_then id) ≡ vertex_then id.tail [] =
      after_type id in
    let type : from_be32 (drop (length id.head.value + 8) (edge_then id)) ≡ id.type =
      edge_type id word in
    let whole : (length id.head.value + 8 + (length id.tail.value + 8) + 4 == length (edge_then id))
        ≡ true =
      ground (arith, size) in
    rw
      (
        decode_edge_id,
        decode_vertex_key-then id.head rest h,
        fits,
        tail,
        decode_vertex_key-then id.tail [] t,
        whole,
        type,
      )
      refl

-- The key of an edge, with 32-bit types and such vertices, is decoded to that edge.
pub decode_edge_id-encode_edge_id :
    (id : EdgeId)
    → IsVertex id.head
    → IsVertex id.tail
    → id.type < 0x100000000
    → decode_edge_id (encode_edge_id id) ≡ ok id
decode_edge_id-encode_edge_id id h t word =
    ap decode_edge_id (encode_edge_id-then id h t) ∙ decode_edge_id-then id h t word

vertex_as_edge : (id : VertexId) → IsVertex id → decode_edge_id (vertex_then id []) ≡ panic
unfolding decode_edge_id
vertex_as_edge id v =
    let short : ltb (length (vertex_then id [])) (length id.value + 8 + 4) ≡ true =
      ground (arith, length-vertex_then id []) in
    rw (decode_edge_id, decode_vertex_key-then id [] v, short) refl

-- The key of such a vertex, when it is decoded as that of an edge, is sliced out of its bounds.
pub decode_edge_id-panic :
    (id : VertexId) → IsVertex id → decode_edge_id (encode_vertex_id id) ≡ panic
decode_edge_id-panic id v = ap decode_edge_id (encode_vertex_id-then id v) ∙ vertex_as_edge id v
