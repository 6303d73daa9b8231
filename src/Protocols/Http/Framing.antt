-- ===== src/Protocols/Http/Framing.antt =====
-- How the fields of a message frame its body, src/net/protocols/http.cpp.
use pcap_analyzer.Prelude.{
  ℕ, ◌≡◌, ◌≢◌, ◌⊎◌, inl, inr, refl, sym, ap, subst, ◌∙◌, true, false, ==_iff, Bool-cases, then_of,
  List, [], ◌∷◌, Option, none, some, if◌then◌else◌, arith,
}
use pcap_analyzer.Util.ParseError.{ok, bind-eq-ok}
use pcap_analyzer.Util.Text.{is_equals}
use pcap_analyzer.Util.Bytes.{codes, same_text}
use pcap_analyzer.Protocols.Http.Header.{Field, Header}
use pcap_analyzer.Protocols.Http.Text.{trim_ows, parse_decimal}
use pcap_analyzer.Protocols.Http.Message.{
  Framing, transfer_encoding, content_length_name, framing_step, framing_loop, settle_framing,
  parse_framing, field_value,
}

-- Every Content-Length field has this value.
abbrev pub SameLengths : List Field → List ℕ → Type 0
SameLengths [] text = Unit {0}
SameLengths (f ∷ fs) text =
    ((is_equals f.name content_length_name ≡ false) ⊎ (f.value ≡ text)) × SameLengths fs text

-- The value of the last field of a name.
abbrev pub last_value : List ℕ → List Field → Option (List ℕ)
last_value name [] = none
last_value name (f ∷ fs) = elim (last_value name fs) [
  | none ↦ if is_equals f.name name then some f.value else none
  | some value ↦ some value
]

-- The last Transfer-Encoding field of a message, without the spaces around it, is `chunked`.
abbrev pub EndsChunked : List Field → Type 0
EndsChunked fs =
    (last : List ℕ) × (last_value transfer_encoding fs ≡ some last)
    × (is_equals (trim_ows last) (codes "chunked") ≡ true)

same_text_iff : (xs ys : List ℕ) → same_text xs ys ≡ true → xs ≡ ys
unfolding same_text
same_text_iff [] [] e = refl
same_text_iff [] (y ∷ ys) e = cc
same_text_iff (x ∷ xs) [] e = cc
same_text_iff (x ∷ xs) (y ∷ ys) e = ground (arith, same_text_iff xs ys, ==_iff x y)

-- No name is both.
two_names :
    (name : List ℕ)
    → is_equals name transfer_encoding ≡ true
    → is_equals name content_length_name ≡ false
unfolding is_equals
two_names name e = ground arith

-- What one field does.
step_encoded :
    (f : Field) (s u : Framing)
    → framing_step f s ≡ ok u
    → ((is_equals f.name transfer_encoding ≡ true) × (u.encodings ≢ []))
      ⊎ ((is_equals f.name transfer_encoding ≡ false) × (u.encodings ≡ s.encodings))
unfolding framing_step
step_encoded f s u e = elim (Bool-cases (is_equals f.name transfer_encoding)) [
  | inl n ↦
      let h : u.encodings ≡ trim_ows f.value ∷ s.encodings = ground (arith, n) in inl (n, λ p. cc)
  | inr n ↦ inr (n, ground (arith, n))
]

encoded :
    (fs : List Field) (s t : Framing)
    → framing_loop fs s ≡ ok t
    → ((field_value transfer_encoding fs ≡ none) × (t.encodings ≡ s.encodings))
      ⊎ ((field_value transfer_encoding fs ≢ none) × (t.encodings ≢ []))
unfolding framing_loop field_value
encoded [] s t e = inl (refl, ground arith)
encoded (f ∷ fs) s t e =
    let (u, step, later) = bind-eq-ok (framing_step f s) _ e in
    ground (arith, step_encoded f s u step, encoded fs u t later)

-- The encodings are kept with the last one first.
LastEncoded : List Field → Framing → Framing → Option (List ℕ) → Type 0
LastEncoded fs s t none = (last_value transfer_encoding fs ≡ none) × (t.encodings ≡ s.encodings)
LastEncoded fs s t (some last) =
    (last_value transfer_encoding fs ≡ some last)
    × ((before : List (List ℕ)) × (t.encodings ≡ trim_ows last ∷ before))

step_last :
    (f : Field) (s u : Framing)
    → framing_step f s ≡ ok u
    → ((is_equals f.name transfer_encoding ≡ true) × (u.encodings ≡ trim_ows f.value ∷ s.encodings))
      ⊎ ((is_equals f.name transfer_encoding ≡ false) × (u.encodings ≡ s.encodings))
unfolding framing_step
step_last f s u e = elim (Bool-cases (is_equals f.name transfer_encoding)) [
  | inl n ↦ inl (n, ground (arith, n))
  | inr n ↦ inr (n, ground (arith, n))
]

last_encoded :
    (fs : List Field) (s t : Framing)
    → framing_loop fs s ≡ ok t
    → (found : Option (List ℕ)) × LastEncoded fs s t found
unfolding framing_loop LastEncoded
last_encoded [] s t e = (none, (refl, ground arith))
last_encoded (f ∷ fs) s t e =
    let (u, step, later) = bind-eq-ok (framing_step f s) _ e in
    put u (last_encoded fs u t later) (step_last f s u step)
  where
    put :
        (u : Framing)
        → ((found : Option (List ℕ)) × LastEncoded fs u t found)
        → ((is_equals f.name transfer_encoding ≡ true)
            × (u.encodings ≡ trim_ows f.value ∷ s.encodings))
          ⊎ ((is_equals f.name transfer_encoding ≡ false) × (u.encodings ≡ s.encodings))
        → (found : Option (List ℕ)) × LastEncoded (f ∷ fs) s t found
    put u (some last, (found, (before, same))) h = (some last, (rw found refl, (before, same)))
    put u (none, (found, same)) (inl (n, first)) =
        (some f.value, (rw (found, n) refl, (s.encodings, same ∙ first)))
    put u (none, (found, same)) (inr (n, first)) = (none, (rw (found, n) refl, same ∙ first))

settled_last :
    (header : Header) (last : List ℕ) (before : List (List ℕ)) (t : Framing) (h : Header)
    → settle_framing header (last ∷ before) t ≡ ok h
    → is_equals last (codes "chunked") ≡ true
unfolding settle_framing
settled_last header last before t h e = ground arith

last_chunked :
    (header : Header) (fs : List Field) (s t : Framing) (h : Header)
    → s.encodings ≡ []
    → framing_loop fs s ≡ ok t
    → settle_framing header t.encodings t ≡ ok h
    → t.encodings ≢ []
    → EndsChunked fs
unfolding LastEncoded
last_chunked header fs s t h blank looped e full = ends (last_encoded fs s t looped)
  where
    ends : ((found : Option (List ℕ)) × LastEncoded fs s t found) → EndsChunked fs
    ends (none, (found, same)) = absurd (full (same ∙ blank))
    ends (some last, (found, (before, same))) = (
      last,
      found,
      settled_last header (trim_ows last) before t h
          (subst (λ es. settle_framing header es t ≡ ok h) same e),
    )

step_sized :
    (f : Field) (s u : Framing)
    → framing_step f s ≡ ok u
    → ((is_equals f.name content_length_name ≡ false)
        × (u.saw_content_length ≡ s.saw_content_length)
        × (u.content_length ≡ s.content_length))
      ⊎ ((is_equals f.name content_length_name ≡ true)
          × (u.saw_content_length ≡ true)
          × (u.content_length ≡ f.value)
          × ((s.saw_content_length ≡ false) ⊎ (f.value ≡ s.content_length)))
unfolding framing_step
step_sized f s u e = ground (arith, two_names f.name, same_text_iff f.value s.content_length)

-- Once a length was seen, the others are the same.
seen :
    (fs : List Field) (s t : Framing)
    → s.saw_content_length ≡ true
    → framing_loop fs s ≡ ok t
    → (t.saw_content_length ≡ true)
      × (t.content_length ≡ s.content_length)
      × SameLengths fs s.content_length
unfolding framing_loop
seen [] s t h e = ground arith
seen (f ∷ fs) s t h e =
    let (u, step, later) = bind-eq-ok (framing_step f s) _ e in
    let (saw, same, first) : (u.saw_content_length ≡ true)
        × (u.content_length ≡ s.content_length)
        × ((is_equals f.name content_length_name ≡ false) ⊎ (f.value ≡ s.content_length)) =
      ground (arith, step_sized f s u step) in
    let (at_end, value, others) = seen fs u t saw later in
    (at_end, value ∙ same, (first, subst (SameLengths fs) same others))

-- What the loop has of the lengths when it saw none before.
abbrev Sized : List Field → Framing → Type 0
Sized fs t =
    ((field_value content_length_name fs ≡ none) × (t.saw_content_length ≡ false))
    ⊎ ((field_value content_length_name fs ≡ some t.content_length)
        × (t.saw_content_length ≡ true)
        × SameLengths fs t.content_length)

sized :
    (fs : List Field) (s t : Framing)
    → s.saw_content_length ≡ false
    → framing_loop fs s ≡ ok t
    → Sized fs t
unfolding framing_loop field_value
sized [] s t h e = inl (refl, ground arith)
sized (f ∷ fs) s t h e =
    let (u, step, later) = bind-eq-ok (framing_step f s) _ e in
    elim (step_sized f s u step) [
      | inl (n, saw, same) ↦ elim (sized fs u t (saw ∙ h) later) [
        | inl (p, q) ↦ inl (rw n p, q)
        | inr (p, q, r) ↦ inr (rw n p, q, (inl n, r))
      ]
      | inr (n, saw, value, rest) ↦
          let (at_end, same, others) = seen fs u t saw later in
          let text : f.value ≡ t.content_length = sym value ∙ sym same in
          inr (rw n (ap some text), at_end, (inr text, subst (SameLengths fs) (sym same) others))
    ]

settled :
    (header : Header) (encodings : List (List ℕ)) (t : Framing) (h : Header)
    → settle_framing header encodings t ≡ ok h
    → ((encodings ≡ []) × (t.saw_content_length ≡ false) × (h ≡ header))
      ⊎ (((encodings ≢ [])
            × (t.saw_content_length ≡ false)
            × (h ≡ record header { chunked = true }))
          ⊎ ((encodings ≡ [])
              × (t.saw_content_length ≡ true)
              × ((n : ℕ) × (parse_decimal t.content_length ≡ ok n)
                  × (h ≡ record header { has_content_length = true; content_length = n }))))
unfolding settle_framing
settled header [] t h e = elim (Bool-cases t.saw_content_length) [
  | inl s ↦
      let (n, size, made) =
        bind-eq-ok (parse_decimal t.content_length) _ (sym (then_of _ _ s) ∙ e) in
      inr (inr (refl, s, (n, size, ground (arith, made))))
  | inr s ↦ inl (refl, s, ground (arith, s))
]
settled header (last ∷ before) t h e =
    let (none_seen, made) : (t.saw_content_length ≡ false)
        × (h ≡ record header { chunked = true }) =
      ground arith in
    inr (inl ((λ p. cc), none_seen, made))

module _ (fs : List Field) (t : Framing) where
  abbrev Encoded : Type 0
  Encoded =
      ((field_value transfer_encoding fs ≡ none) × (t.encodings ≡ []))
      ⊎ ((field_value transfer_encoding fs ≢ none) × (t.encodings ≢ []))

  no_encoding : Encoded → t.encodings ≡ [] → field_value transfer_encoding fs ≡ none
  no_encoding (inl h) e = h.0
  no_encoding (inr h) e = absurd (h.1 e)

  some_encoding : Encoded → t.encodings ≢ [] → field_value transfer_encoding fs ≢ none
  some_encoding (inl h) e = absurd (e h.1)
  some_encoding (inr h) e = h.0

  no_length : Sized fs t → t.saw_content_length ≡ false → field_value content_length_name fs ≡ none
  no_length (inl h) e = h.0
  no_length (inr h) e = cc

  some_length :
      Sized fs t
      → t.saw_content_length ≡ true
      → (field_value content_length_name fs ≡ some t.content_length)
        × SameLengths fs t.content_length
  some_length (inl h) e = cc
  some_length (inr h) e = (h.0, h.2)

-- A message whose framing is accepted has neither a Transfer-Encoding nor a Content-Length field, or
-- only the former, and then the last coding is `chunked` and so is the body, or only the latter: then all these fields have one
-- value, and it is the decimal number that the header gets. In the first case the header is left as
-- it is, and in the others nothing else is changed.
pub parse_framing_cases :
    (header h : Header)
    → parse_framing header ≡ ok h
    → ((field_value transfer_encoding header.fields ≡ none)
        × (field_value content_length_name header.fields ≡ none)
        × (h ≡ header))
      ⊎ (((field_value transfer_encoding header.fields ≢ none)
            × (field_value content_length_name header.fields ≡ none)
            × EndsChunked header.fields
            × (h ≡ record header { chunked = true }))
          ⊎ ((field_value transfer_encoding header.fields ≡ none)
              × ((text : List ℕ) × (n : ℕ) × (field_value content_length_name header.fields
                    ≡ some text)
                  × SameLengths header.fields text
                  × (parse_decimal text ≡ ok n)
                  × (h ≡ record header { has_content_length = true; content_length = n }))))
unfolding parse_framing
parse_framing_cases header h e =
    let blank : Framing = record {
      encodings = [];
      saw_content_length = false;
      content_length = [];
    } in
    let (t, looped, later) = bind-eq-ok (framing_loop header.fields blank) _ e in
    let te = encoded header.fields blank t looped in
    let cl = sized header.fields blank t refl looped in
    elim (settled header t.encodings t h later) [
      | inl (empty, saw, made) ↦
          inl (no_encoding header.fields t te empty, no_length header.fields t cl saw, made)
      | inr (inl (full, saw, made)) ↦ inr (
          inl (
            some_encoding header.fields t te full,
            no_length header.fields t cl saw,
            last_chunked header header.fields blank t h refl looped later full,
            made,
          ))
      | inr (inr (empty, saw, (n, size, made))) ↦
          let (value, same) = some_length header.fields t cl saw in
          inr (
            inr (
              no_encoding header.fields t te empty,
              (t.content_length, n, value, same, size, made),
            ))
    ]
