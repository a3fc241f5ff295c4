-- ===== src/Network/Reserve.antt =====
-- The slot that is kept back for the main document.
use agent_first_http.Prelude.{
  ℕ, suc, ◌+◌, ◌≤◌, Text, codes, Bool, true, false, ◌≡◌, Option, none, some, List, [], inl, inr,
  Bool-cases, Option-cases, text_keys, get, put, remove, length, ltb, length-put_unknown, get-put,
  get-remove, arith, ap, ◌∙◌, text_eq, text_eq_iff, text_eq_refl, refl,
}
use agent_first_http.Pages.Classification.{text_or}
use agent_first_http.Network.Entry.{Response, CdpEvent}
use agent_first_http.Network.Collector.{
  NetworkSlot, NetworkInner, network_entry_limit, is_refused, is_none, is_blank, is_document,
  end_hop, hop_id_of, hop_count, ended_hop, or_zero,
}
use agent_first_http.Network.Events.{admit_request, on_request, choose_main}

end_hop-main :
    (redact : Bool) (req : Text) (t : ℕ) (r : Option Response) (inner : NetworkInner)
    → (end_hop redact req t r inner).0.main_request_id ≡ inner.main_request_id
unfolding end_hop
end_hop-main redact req t none inner = refl
end_hop-main redact req t (some r) inner = elim (Option-cases (get req inner.slots)) [
  | inl e ↦ rw (e, end_hop)
  | inr (hop, e) ↦
      rw (e, end_hop)
        (elim (Bool-cases (ltb network_entry_limit (length (remove req inner.slots) + 2))) [
          | inl full ↦ rw full
          | inr room ↦ rw room
        ])
]

two_more :
    (a b : Text) (h new : NetworkSlot) (m : List (Text × NetworkSlot)) {old : NetworkSlot}
    → get a m ≡ some old
    → get b m ≡ none
    → length (put a new (put b h (remove a m))) ≡ suc (suc (length (remove a m)))
two_more a b h new m {old} known fresh =
    length-put_unknown a new _ (
      ground (arith, get-put b a h (remove a m), get-remove a a m, text_eq_iff b a, text_eq_refl a))
    ∙ ap suc (length-put_unknown b h _ (ground (arith, get-remove a b m)))

-- With room for two, the hop that ended and the new one take both slots.
end_hop-full :
    (redact : Bool) (req : Text) (t : ℕ) (r : Response) (inner : NetworkInner) (new : NetworkSlot)
    {hop : NetworkSlot}
    → get req inner.slots ≡ some hop
    → get (hop_id_of req (hop_count (get req inner.redirect_hops))) inner.slots ≡ none
    → length (remove req inner.slots) + 2 ≡ network_entry_limit
    → length (put req new (end_hop redact req t (some r) inner).0.slots) ≡ network_entry_limit
unfolding end_hop
end_hop-full redact req t r inner new known fresh full =
    let room : ltb network_entry_limit (length (remove req inner.slots) + 2) ≡ false =
      rw full refl in
    rw (known, end_hop)
      (rw room (
        two_more req (hop_id_of req (hop_count (get req inner.redirect_hops))) _ new inner.slots
          known fresh
        ∙ omega arith))

-- The hop that ended is found under its own identifier.
end_hop-hop :
    (redact : Bool) (req : Text) (t : ℕ) (r : Response) (inner : NetworkInner) (new : NetworkSlot)
    {hop : NetworkSlot}
    → let hop_id = hop_id_of req (hop_count (get req inner.redirect_hops)) in
      get req inner.slots ≡ some hop
      → get hop_id inner.slots ≡ none
      → length (remove req inner.slots) + 2 ≡ network_entry_limit
      → get hop_id (put req new (end_hop redact req t (some r) inner).0.slots)
        ≡ some (record hop { entry = ended_hop redact hop_id t r hop.entry })
unfolding end_hop
end_hop-hop redact req t r inner new known fresh full =
    let hop_id = hop_id_of req (hop_count (get req inner.redirect_hops)) in
    let room : ltb network_entry_limit (length (remove req inner.slots) + 2) ≡ false =
      rw full refl in
    let apart : text_eq req hop_id ≡ false = ground (arith, known, fresh, text_eq_iff req hop_id) in
    rw (known, end_hop)
      (rw room (rw get-put (rw apart (rw get-put (rw (text_eq_refl hop_id) refl)))))

-- The first request of a document becomes the main one, and is kept, if a slot was left for it.
pub on_request-document :
    (redact : Bool) (now : ℕ) (ev : CdpEvent) (inner : NetworkInner)
    → is_blank (text_or ev.request_id []) ≡ false
    → is_document (text_or ev.type_ (codes "Other")) ≡ true
    → inner.main_request_id ≡ none
    → length inner.slots + 1 ≤ network_entry_limit
    → ((on_request redact now ev inner).0.main_request_id ≡ some (text_or ev.request_id []))
      × (is_none (get (text_or ev.request_id []) (on_request redact now ev inner).0.slots) ≡ false)
unfolding on_request admit_request choose_main is_refused
on_request-document redact now ev inner filled document first room =
    elim (Bool-cases
      (is_refused inner (text_or ev.request_id []) (text_or ev.type_ (codes "Other")))) [
        | inl refused ↦ absurd (ground (arith, refused))
        | inr taken ↦ rw taken (
          end_hop-main redact _ _ ev.redirect_response _ ∙ rw (document, first) refl,
          rw get-put (rw (text_eq_refl (text_or ev.request_id []))),
        )
      ]

refused_full :
    (redact : Bool) (now : ℕ) (ev : CdpEvent) (inner : NetworkInner)
    → get (text_or ev.request_id []) inner.slots ≡ none
    → length inner.slots ≡ network_entry_limit
    → on_request redact now ev inner ≡ (record inner { truncated = true }, false)
unfolding on_request is_refused
refused_full redact now ev inner unknown full =
    elim (Bool-cases
      (is_refused inner (text_or ev.request_id []) (text_or ev.type_ (codes "Other")))) [
        | inl refused ↦ rw refused refl
        | inr taken ↦
            let open_slot = rw (unknown, is_refused) at taken in absurd (ground (arith, open_slot))
      ]

admit_request-full :
    (redact : Bool) (now : ℕ) (ev : CdpEvent) (inner : NetworkInner) (req : Text)
    (redirect : Response) {hop : NetworkSlot}
    → ev.redirect_response ≡ some redirect
    → is_document (text_or ev.type_ (codes "Other")) ≡ false
    → inner.main_request_id ≡ none
    → get req inner.slots ≡ some hop
    → get (hop_id_of req (hop_count (get req inner.redirect_hops))) inner.slots ≡ none
    → length (remove req inner.slots) + 2 ≡ network_entry_limit
    → let hop_id = hop_id_of req (hop_count (get req inner.redirect_hops)) in
      (length (admit_request redact now ev req inner).slots ≡ network_entry_limit)
      × ((admit_request redact now ev req inner).main_request_id ≡ none)
      × (get hop_id (admit_request redact now ev req inner).slots
          ≡ some (record hop {
            entry = ended_hop redact hop_id (or_zero ev.timestamp) redirect hop.entry;
          }))
unfolding admit_request choose_main
admit_request-full redact now ev inner req redirect hops other_type first known fresh full = (
  rw hops (end_hop-full redact req _ redirect _ _ known fresh full),
  end_hop-main redact req _ ev.redirect_response _ ∙ rw (other_type, first) refl,
  rw hops (end_hop-hop redact req _ redirect _ _ known fresh full),
)

on_request-known :
    (redact : Bool) (now : ℕ) (ev : CdpEvent) (inner : NetworkInner) (req : Text)
    {hop : NetworkSlot}
    → ev.request_id ≡ some req
    → is_blank req ≡ false
    → get req inner.slots ≡ some hop
    → (on_request redact now ev inner).0 ≡ admit_request redact now ev req inner
unfolding on_request is_refused
on_request-known redact now ev inner req id filled known = rw id (rw (filled, known) refl)

-- When all slots but one are taken, no main document is known, and a request that is no document is
-- redirected, then the hop that ended takes the last slot, under an identifier of its own: all slots
-- are taken, and there is no main document. The first document that comes next, under a new
-- identifier, is refused: nothing changes but that the log is marked as truncated. Without the redirect
-- the same document becomes the main one and has a slot.
pub on_request-document_lost :
    (redact : Bool) (now later : ℕ) (ev document : CdpEvent) (inner : NetworkInner) (req : Text)
    (redirect : Response) {hop : NetworkSlot}
    → let after = (on_request redact now ev inner).0 in
      let hop_id = hop_id_of req (hop_count (get req inner.redirect_hops)) in
      let id = text_or document.request_id [] in
      let without = (on_request redact later document inner).0 in
      ev.request_id ≡ some req
      → is_blank req ≡ false
      → ev.redirect_response ≡ some redirect
      → is_document (text_or ev.type_ (codes "Other")) ≡ false
      → inner.main_request_id ≡ none
      → get req inner.slots ≡ some hop
      → get hop_id inner.slots ≡ none
      → length inner.slots + 1 ≡ network_entry_limit
      → length (remove req inner.slots) + 2 ≡ network_entry_limit
      → is_document (text_or document.type_ (codes "Other")) ≡ true
      → is_blank id ≡ false
      → get id after.slots ≡ none
      → (get hop_id after.slots
          ≡ some (record hop {
            entry = ended_hop redact hop_id (or_zero ev.timestamp) redirect hop.entry;
          }))
        × (length after.slots ≡ network_entry_limit)
        × (after.main_request_id ≡ none)
        × (on_request redact later document after ≡ (record after { truncated = true }, false))
        × (without.main_request_id ≡ some id)
        × (is_none (get id without.slots) ≡ false)
on_request-document_lost redact now later ev document inner req redirect id filled hops other_type
      first known fresh one_left full is_doc doc_filled unknown =
    let (size, main, kept) =
      admit_request-full redact now ev inner req redirect hops other_type first known fresh full in
    let same = on_request-known redact now ev inner req id filled known in
    let sized = ap (λ (s : NetworkInner). length s.slots) same ∙ size in
    let (chosen, held) =
      on_request-document redact later document inner doc_filled is_doc first (omega arith) in
    (
      ap
            (λ (s : NetworkInner).
              get (hop_id_of req (hop_count (get req inner.redirect_hops))) s.slots)
            same
          ∙ kept,
      sized,
      ap (λ (s : NetworkInner). s.main_request_id) same ∙ main,
      refused_full redact later document (on_request redact now ev inner).0 unknown sized,
      chosen,
      held,
    )
