-- ===== src/Network/Buckets.antt =====
-- -- One bucket of a stream, under the events that are pushed to it.
use agent_first_http.Prelude.{
  ℕ, ◌+◌, ◌-◌, ◌≤◌, Text, ◌≡◌, List, [], ◌∷◌, ◌++◌, inl, inr, leb, ◌==◌, length, text_keys, arith,
  Bool-cases,
}
use agent_first_http.Pages.Classification.{text_or}
use agent_first_http.Network.StreamBuckets.{
  stream_event_limit, stream_payload_bytes, char_len, byte_len, floor_prefix, StreamEvent,
  StreamEvents, payload_len, cut_event, push_kept, push_bucket,
}

unfoldable pub payload_sum : List StreamEvent → ℕ
payload_sum [] = 0
payload_sum (e ∷ rest) = payload_len e + payload_sum rest

pub length-++ : (xs ys : List StreamEvent) → length (xs ++ ys) ≡ length xs + length ys
length-++ [] ys = omega arith
length-++ (x ∷ xs) ys = omega (arith, length-++ xs ys)

pub payload_sum-++ :
    (xs ys : List StreamEvent) → payload_sum (xs ++ ys) ≡ payload_sum xs + payload_sum ys
unfolding payload_sum
payload_sum-++ [] ys = omega arith
payload_sum-++ (x ∷ xs) ys = omega (arith, payload_sum-++ xs ys)

pub floor_prefix-len : (n : ℕ) (s : Text) → byte_len (floor_prefix n s) ≤ n
unfolding byte_len floor_prefix
floor_prefix-len n [] = omega arith
floor_prefix-len n (c ∷ s) = elim (Bool-cases (leb (char_len c) n)) [
  | inl fits ↦ rw fits (ground (arith, floor_prefix-len (n - char_len c) s))
  | inr over ↦ rw over (omega arith)
]

-- What was taken of a request, and what is in its bucket, against the counts of the bucket.
pub record Fits (taken : List StreamEvent) (b : StreamEvents) : Type 0 where
  pub total : length taken + length b.events ≤ b.captured_total
  pub bytes : payload_sum taken + payload_sum b.events ≤ b.captured_bytes
  pub total_limit : b.captured_total ≤ stream_event_limit
  pub bytes_limit : b.captured_bytes ≤ stream_payload_bytes

pub push_kept-Fits :
    (e : StreamEvent) (kept : ℕ) (taken : List StreamEvent) (b : StreamEvents)
    → payload_len e ≤ kept
    → b.captured_bytes + kept ≤ stream_payload_bytes
    → b.captured_total + 1 ≤ stream_event_limit
    → Fits taken b
    → Fits taken (push_kept e kept b)
unfolding payload_sum
push_kept-Fits e kept taken b small room free h = record {
  total = omega (arith, h.total, length-++ b.events (e ∷ []));
  bytes = omega (arith, h.bytes, payload_sum-++ b.events (e ∷ []));
  total_limit = free;
  bytes_limit = room;
}

pub push_bucket-Fits :
    (e : StreamEvent) (taken : List StreamEvent) (b : StreamEvents)
    → Fits taken b
    → Fits taken (push_bucket e b).0
unfolding push_bucket
push_bucket-Fits e taken b h =
    let budget = stream_payload_bytes - b.captured_bytes in
    elim (Bool-cases (leb stream_event_limit b.captured_total)) [
      | inl full ↦ rw full h
      | inr free ↦
          let one_more : b.captured_total + 1 ≤ stream_event_limit = ground (arith, free) in
          elim (Bool-cases (leb (payload_len e) budget)) [
            | inl whole ↦
                rw (free, whole)
                  (push_kept-Fits e (payload_len e) taken b (omega arith)
                    (ground (arith, whole, h.bytes_limit)) one_more h)
            | inr cut ↦ elim (Bool-cases (budget == 0)) [
              | inl spent ↦ rw (free, cut, spent) h
              | inr left ↦
                  rw (free, cut, left)
                    (push_kept-Fits (cut_event budget e) budget taken b
                      (floor_prefix-len budget (text_or e.payload []))
                      (omega (arith, h.bytes_limit)) one_more h)
            ]
          ]
    ]
