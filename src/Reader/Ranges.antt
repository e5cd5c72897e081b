-- ===== src/Reader/Ranges.antt =====
-- The number of results of a range read: `readRange` of internal/data/server/txn/reader.go.
use mathlib.Core.List.{append-nil, append_assoc}
use scout.Base.{
  ℕ, zero, suc, ◌+◌, ◌<◌, ◌≡◌, ◌≢◌, subst, refl, ◌∙◌, inl, inr, true, false, Option, none, some,
  List, [], ◌∷◌, ◌++◌, arith, ◌==◌, nat_eq, Bool-cases, Option-cases,
}
use scout.Base.Lists.{length, take, length-append}
use scout.Base.Bytes.{Bytes}
use scout.Mvcc.{Record}
use scout.Mvcc.Emulated.{Stream, nil, fault, yields}
use scout.Txn.{Code}
use scout.Reader.{Store, Config, ok, read_stream}

-- The values of the records that can be decoded, in order.
abbrev add_value : Option Bytes → List Bytes → List Bytes
add_value none values = values
add_value (some value) values = value ∷ values

abbrev pub decoded : {S : Type 0} → Store S → Stream → List Bytes
decoded db nil = []
decoded db fault = []
decoded db (yields r stream) = add_value (db.decode_value r.value) (decoded db stream)

module _ {S : Type 0} (db : Store S) (config : Config) where
  -- The read does not stop while there is room for more than one value.
  read_stream-skip :
      (max_results : ℕ) (results found : List Bytes) (r : Record) (stream : Stream)
      → db.decode_value r.value ≡ none
      → read_stream db config max_results results (yields r stream) ≡ ok (Code.success, found)
      → read_stream db config max_results results stream ≡ ok (Code.success, found)
  unfolding read_stream
  read_stream-skip max_results results found r stream e h =
      elim (Bool-cases config.skip_corrupted_data) [
        | inl skips ↦ rw (read_stream, e, skips) at h
        | inr stops ↦ let other = rw (read_stream, e, stops) at h in cc
      ]

  read_stream-last :
      (max_results : ℕ) (results found : List Bytes) (r : Record) (stream : Stream) (value : Bytes)
      → db.decode_value r.value ≡ some value
      → length results + 1 ≡ max_results
      → read_stream db config max_results results (yields r stream) ≡ ok (Code.success, found)
      → found ≡ results ++ value ∷ []
  unfolding read_stream
  read_stream-last max_results results found r stream value e full h =
      let size = length-append results (value ∷ []) in
      let reached : (length (results ++ value ∷ []) == max_results) ≡ true = ground (arith, size) in
      let same = rw (read_stream, e, reached) at h in cc

  read_stream-next :
      (max_results : ℕ) (results found : List Bytes) (r : Record) (stream : Stream) (value : Bytes)
      → db.decode_value r.value ≡ some value
      → length results + 1 ≢ max_results
      → read_stream db config max_results results (yields r stream) ≡ ok (Code.success, found)
      → read_stream db config max_results (results ++ value ∷ []) stream ≡ ok (Code.success, found)
  unfolding read_stream
  read_stream-next max_results results found r stream value e open_end h =
      let size = length-append results (value ∷ []) in
      let room : (length (results ++ value ∷ []) == max_results) ≡ false = ground (arith, size) in
      rw (read_stream, e, room) at h

  read_stream_from :
      (results found : List Bytes) (k : ℕ) (stream : Stream)
      → read_stream db config (length results + suc k) results stream ≡ ok (Code.success, found)
      → found ≡ results ++ take (suc k) (decoded db stream)
  unfolding read_stream take
  read_stream_from results found k nil h = rw (append-nil results) cc
  read_stream_from results found k fault h = cc
  read_stream_from results found zero (yields r stream) h =
      elim (Option-cases (db.decode_value r.value)) [
        | inl e ↦
            let later = read_stream-skip (length results + 1) results found r stream e h in
            rw e (read_stream_from results found zero stream later)
        | inr (value, e) ↦
            rw e (read_stream-last (length results + 1) results found r stream value e refl h)
      ]
  read_stream_from results found (suc k) (yields r stream) h =
      let limit = length results + suc (suc k) in
      elim (Option-cases (db.decode_value r.value)) [
        | inl e ↦
            let later = read_stream-skip limit results found r stream e h in
            rw e (read_stream_from results found (suc k) stream later)
        | inr (value, e) ↦
            let next = results ++ value ∷ [] in
            let more =
              read_stream-next limit results found r stream value e (λ x. omega (arith, x)) h in
            let size : limit ≡ length next + suc k =
              omega (arith, length-append results (value ∷ [])) in
            let rest = read_stream_from next found k stream (
              subst (λ n. read_stream db config n next stream ≡ ok (Code.success, found)) size
                more) in
            rw e (rest ∙ append_assoc results (value ∷ []) (take (suc k) (decoded db stream)))
      ]

  -- A range read that succeeds returns the first values that can be decoded, as many as the limit
  -- allows, for a limit that is not zero.
  pub read_stream-take :
      (limit : ℕ) (found : List Bytes) (stream : Stream)
      → 0 < limit
      → read_stream db config limit [] stream ≡ ok (Code.success, found)
      → found ≡ take limit (decoded db stream)
  read_stream-take zero found stream positive h = absurd (omega (arith, positive))
  read_stream-take (suc k) found stream positive h =
      let same : suc k ≡ 0 + suc k = omega arith in
      read_stream_from [] found k stream
        (subst (λ n. read_stream db config n [] stream ≡ ok (Code.success, found)) same h)
