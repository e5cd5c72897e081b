-- ===== src/Reader/Tests.antt =====
-- Range reads on small data, and the theorems at concrete inputs.
use scout.Base.{◌≡◌, refl, true, Option, none, some, List, [], ◌∷◌, arith}
use scout.Base.Lists.{take}
use scout.Base.Bytes.{Bytes}
use scout.Mvcc.{Record}
use scout.Mvcc.Emulated.{Stream, nil, yields}
use scout.Txn.{Code}
use scout.Reader.{Store, Config, ok, read_stream, fetch_points, assign}
use scout.Reader
use scout.Reader.Ranges.{decoded, read_stream-take}

-- A value is decoded to itself, but for the empty one, which is corrupted.
abbrev decode : Bytes → Option Bytes
decode [] = none
decode (b ∷ value) = some (b ∷ value)

abbrev db : Store (Unit {0})
db = record {
  get = λ s pid ts addrs. none;
  get_range = λ s pid ts a b. none;
  decode_value = decode;
}

abbrev config : Config
config = record { max_iterator_results = 100; skip_corrupted_data = true }

abbrev record_with : Bytes → Record
record_with value = record {
  address = record { keyspace = 16; key = [] };
  timestamp = 3;
  value = value;
  flags = 0;
}

abbrev stream : Stream
stream =
    yields (record_with (1 ∷ []))
      (yields (record_with []) (yields (record_with (2 ∷ [])) (yields (record_with (3 ∷ [])) nil)))

abbrev two_values : List Bytes
two_values = (1 ∷ []) ∷ (2 ∷ []) ∷ []

reads_two : read_stream db config 2 [] stream ≡ ok (Code.success, two_values)
unfolding read_stream
reads_two = refl

read_stream-take_example : two_values ≡ take 2 (decoded db stream)
read_stream-take_example = read_stream-take db config 2 two_values stream (omega arith) reads_two

abbrev three_values : List Bytes
three_values = (1 ∷ []) ∷ (2 ∷ []) ∷ (3 ∷ []) ∷ []

-- The limit zero is no limit.
reads_all : read_stream db config 0 [] stream ≡ ok (Code.success, three_values)
unfolding read_stream
reads_all = refl

-- The point reads of a committed read-write transaction, whose status has the nil map.
writes_into_nil :
    fetch_points db config ((1, record { keyspace = 16; key = [] }) ∷ []) (none ∷ []) none
    ≡ Reader.err Reader.panic
unfolding fetch_points assign
writes_into_nil = refl
