-- ===== src/Graph/Tests.antt =====
-- Keys of the graph on small data.
use scout.Base.{◌≡◌, refl, [], ◌∷◌, arith}
use scout.Graph.{
  VertexId, EdgeId, ok, unexpected_key_padding, panic, be32, append_vertex_key, encode_vertex_id,
  decode_vertex_key, decode_vertex_id, encode_edge_id, decode_edge_id,
}
use scout.Graph.RoundTrip.{IsVertex, decode_edge_id-encode_edge_id, decode_edge_id-panic}

abbrev vertex : VertexId
vertex = record { type = 258; value = 5 ∷ 6 ∷ [] }

abbrev edge : EdgeId
edge = record { head = vertex; tail = record { type = 1; value = 9 ∷ [] }; type = 7 }

vertex_key :
    (encode_vertex_id vertex ≡ 0 ∷ 0 ∷ 1 ∷ 2 ∷ 0 ∷ 0 ∷ 0 ∷ 2 ∷ 5 ∷ 6 ∷ [])
    × (decode_vertex_id (1 ∷ []) ≡ unexpected_key_padding)
unfolding encode_vertex_id append_vertex_key be32 decode_vertex_id decode_vertex_key
vertex_key = (refl, refl)

head-IsVertex : IsVertex edge.head
head-IsVertex = record { word = omega arith; filled = omega arith; bounded = omega arith }

tail-IsVertex : IsVertex edge.tail
tail-IsVertex = record { word = omega arith; filled = omega arith; bounded = omega arith }

decode_edge_id-encode_edge_id_example : decode_edge_id (encode_edge_id edge) ≡ ok edge
decode_edge_id-encode_edge_id_example =
    decode_edge_id-encode_edge_id edge head-IsVertex tail-IsVertex (omega arith)

decode_edge_id-panic_example : decode_edge_id (encode_vertex_id vertex) ≡ panic
decode_edge_id-panic_example = decode_edge_id-panic vertex head-IsVertex
