-- ===== src/Network/Kept.antt =====
-- -- The map of streams, under what is pushed to it and what is taken of it.
use agent_first_http.Prelude.{
  ℕ, suc, ◌≤◌, Text, true, false, ◌≡◌, refl, sym, ap, none, some, List, [], ◌∷◌, ◌++◌, inl, inr,
  leb, length, text_eq, text_keys, get, put, get-put, length-put, length-put_known, Distinct,
  put-Distinct, arith, Bool-cases, Option-cases, text_eq_iff, ◌⊎◌, ◌&&◌, subst,
}
use agent_first_http.Network.Collector.{network_entry_limit, is_none}
use agent_first_http.Network.StreamBuckets.{
  StreamEvent, StreamEvents, bucket_or_default, push_bucket, push_stream_event, is_empty, emptied,
  empty_buckets, drained, take_stream_events,
}
use agent_first_http.Network.Streams.{value_or}
use agent_first_http.Network.Buckets.{
  payload_sum, length-++, payload_sum-++, Fits, push_bucket-Fits,
}

-- What is taken out of a bucket counts as taken.
pub taken-Fits :
    (taken : List StreamEvent) (b : StreamEvents)
    → Fits taken b
    → Fits (taken ++ b.events) (emptied b)
unfolding payload_sum
taken-Fits taken b h = record {
  total = omega (arith, h.total, length-++ taken b.events);
  bytes = omega (arith, h.bytes, payload_sum-++ taken b.events);
  total_limit = h.total_limit;
  bytes_limit = h.bytes_limit;
}

-- The events of a request in one of the maps that the callers were given, and in all of them.
abbrev pub events_in : Text → List (Text × List StreamEvent) → List StreamEvent
events_in id m = value_or (get id m) []

unfoldable pub events_taken : Text → List (List (Text × List StreamEvent)) → List StreamEvent
events_taken id [] = []
events_taken id (m ∷ earlier) = events_taken id earlier ++ events_in id m

abbrev pub bucket : Text → List (Text × StreamEvents) → StreamEvents
bucket id streams = bucket_or_default (get id streams)

-- What holds of a map of streams and of what was taken of it.
pub record IsKept (streams : List (Text × StreamEvents))
    (taken : List (List (Text × List StreamEvent))) : Type 0 where
  pub distinct : Distinct streams
  pub requests : length streams ≤ network_entry_limit
  pub fits : (id : Text) → Fits (events_taken id taken) (bucket id streams)

pub no_streams-IsKept : IsKept [] []
unfolding get events_taken payload_sum
no_streams-IsKept = record {
  distinct = tt;
  requests = omega arith;
  fits = λ id. record {
    total = omega arith;
    bytes = omega arith;
    total_limit = omega arith;
    bytes_limit = omega arith;
  };
}

pub put_known :
    (id : Text) (b : StreamEvents) (streams : List (Text × StreamEvents))
    → (is_none (get id streams) && leb network_entry_limit (length streams)) ≡ false
    → length streams ≤ network_entry_limit
    → length (put id b streams) ≤ network_entry_limit
put_known id b streams room h = elim (Option-cases (get id streams)) [
  | inl e ↦
      let free : leb network_entry_limit (length streams) ≡ false = rw e at room in
      ground (arith, length-put id b streams)
  | inr (old, e) ↦ omega (arith, length-put_known id b streams e)
]

pub push_stream_event-IsKept :
    (id : Text) (e : StreamEvent) (streams : List (Text × StreamEvents))
    (taken : List (List (Text × List StreamEvent)))
    → IsKept streams taken
    → IsKept (push_stream_event id e streams).0 taken
unfolding push_stream_event
push_stream_event-IsKept id e streams taken h =
    elim (Bool-cases (is_none (get id streams) && leb network_entry_limit (length streams))) [
      | inl full ↦ rw full h
      | inr room ↦ rw room (record {
        distinct = put-Distinct id (push_bucket e (bucket id streams)).0 streams h.distinct;
        requests = put_known id (push_bucket e (bucket id streams)).0 streams room h.requests;
        fits = λ k.
            rw (get-put id k (push_bucket e (bucket id streams)).0 streams)
              (elim (Bool-cases (text_eq id k)) [
                | inl own ↦ rw own (
                    rw (sym ((text_eq_iff id k).0 own))
                      (push_bucket-Fits e (events_taken id taken) (bucket id streams) (h.fits id)))
                | inr other ↦ rw other (h.fits k)
              ]);
      })
    ]

pub emptied-get :
    (id : Text) (streams : List (Text × StreamEvents))
    → bucket id (empty_buckets streams) ≡ emptied (bucket id streams)
unfolding get empty_buckets
emptied-get id [] = refl
emptied-get id ((k, b) ∷ rest) = elim (Bool-cases (text_eq k id)) [
  | inl own ↦ rw own refl
  | inr other ↦ rw other (emptied-get id rest)
]

pub length-empty_buckets :
    (streams : List (Text × StreamEvents)) → length (empty_buckets streams) ≡ length streams
unfolding empty_buckets
length-empty_buckets [] = refl
length-empty_buckets (x ∷ rest) = ap (λ (n : ℕ). suc n) (length-empty_buckets rest)

pub get-empty_buckets :
    (id : Text) (streams : List (Text × StreamEvents))
    → get id streams ≡ none
    → get id (empty_buckets streams) ≡ none
unfolding get empty_buckets
get-empty_buckets id [] h = refl
get-empty_buckets id ((k, b) ∷ rest) h = elim (Bool-cases (text_eq k id)) [
  | inl own ↦ let bad : some b ≡ none = rw own at h in cc
  | inr other ↦ rw other (get-empty_buckets id rest (rw other at h))
]

pub empty_buckets-Distinct :
    (streams : List (Text × StreamEvents)) → Distinct streams → Distinct (empty_buckets streams)
unfolding empty_buckets
empty_buckets-Distinct [] h = tt
empty_buckets-Distinct ((k, b) ∷ rest) h =
    (get-empty_buckets k rest h.0, empty_buckets-Distinct rest h.1)

pub empty_cases : (l : List StreamEvent) → ((l ≡ []) × (is_empty l ≡ true)) ⊎ (is_empty l ≡ false)
empty_cases [] = inl (refl, refl)
empty_cases (x ∷ xs) = inr refl

pub get-drained :
    (id : Text) (streams : List (Text × StreamEvents))
    → get id streams ≡ none
    → get id (drained streams) ≡ none
unfolding get drained
get-drained id [] h = refl
get-drained id ((k, b) ∷ rest) h = elim (Bool-cases (text_eq k id)) [
  | inl own ↦ let bad : some b ≡ none = rw own at h in cc
  | inr other ↦
      let absent = get-drained id rest (rw other at h) in
      elim (empty_cases b.events) [
        | inl (nothing, empty) ↦ rw empty absent
        | inr full ↦ rw (full, other) absent
      ]
]

-- What a caller is given of a request is what its bucket had.
pub events_in-drained :
    (id : Text) (streams : List (Text × StreamEvents))
    → Distinct streams
    → events_in id (drained streams) ≡ (bucket id streams).events
unfolding get drained
events_in-drained id [] h = refl
events_in-drained id ((k, b) ∷ rest) h = elim (Bool-cases (text_eq k id)) [
  | inl own ↦ elim (empty_cases b.events) [
    | inl (nothing, empty) ↦
        let absent : get id rest ≡ none =
          subst (λ (j : Text). get j rest ≡ none) ((text_eq_iff k id).0 own) h.0 in
        rw (own, empty) (rw (get-drained id rest absent, events_in) (sym nothing))
    | inr full ↦ rw (full, events_in) (rw own refl)
  ]
  | inr other ↦ elim (empty_cases b.events) [
    | inl (nothing, empty) ↦ rw (other, empty) (events_in-drained id rest h.1)
    | inr full ↦ rw (full, other) (events_in-drained id rest h.1)
  ]
]

pub take_stream_events-IsKept :
    (streams : List (Text × StreamEvents)) (taken : List (List (Text × List StreamEvent)))
    → IsKept streams taken
    → IsKept (take_stream_events streams).0 ((take_stream_events streams).1 ∷ taken)
unfolding take_stream_events events_taken
take_stream_events-IsKept streams taken h = record {
  distinct = empty_buckets-Distinct streams h.distinct;
  requests = rw (length-empty_buckets streams) h.requests;
  fits = λ k. rw (emptied-get k streams) (
      rw (events_in-drained k streams h.distinct)
        (taken-Fits (events_taken k taken) (bucket k streams) (h.fits k)));
}
