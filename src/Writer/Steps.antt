-- ===== src/Writer/Steps.antt =====
-- One call of `sendmsg`: what the socket may take, and the counts after it.
use casycom.Base.{
  ℕ, ◌+◌, ◌-◌, ◌≤◌, ◌<◌, ◌≡◌, refl, ap, ◌∙◌, sym, List, [], ◌∷◌, ◌++◌, none, some, arith, length,
  length-drop, take, drop, Bool, true, false, ◌&&◌, ltb, leb, ◌==◌, if◌then◌else◌, inl, inr,
  Bool-cases, le→leb, leb→le,
}
use casycom.Msg.{Interface, Msg}
use casycom.FdIo.{Answer, done, closed, again, interrupted, failed}
use casycom.Writer.{Sender, body_size, given, advance, once_passed, fd_passed}
use casycom.Writer.Pending.{
  header_of, frames, pending, IsPlain, AllPlain, IsInside, IsInsideFirst, IsValid, length-given,
  pending-given, take-drop_prefix, drop-append, drop_all,
}
use casycom.Wire.Strings.{drop-drop}

-- A call that writes takes some of the bytes that it is given.
unfoldable pub can_take : ℕ → ℕ → Bool
can_take n bw = ltb 0 bw && leb bw n

-- The answers of a socket that keeps to this, up to the end of the loop.
unfoldable pub allowed : (ℕ → Interface) → List (Answer ℕ) → Sender → Bool
unfolding can_take
allowed interfaces [] s = elim s.outgoing [ [] ↦ true | msg ∷ rest ↦ false ]
allowed interfaces (a ∷ calls) s = elim s.outgoing [
  | [] ↦ true
  | msg ∷ rest ↦
      let hdr = header_of interfaces msg in
      elim a [
        | done bw ↦
            if can_take (length (given hdr msg s)) bw
            then elim (advance (length hdr) msg rest s bw) [
              | none ↦ false
              | some s' ↦ allowed interfaces calls s'
            ]
            else false
        | closed ↦ true
        | again ↦ true
        | interrupted ↦ allowed interfaces calls s
        | failed e ↦ true
      ]
]

once_passed-plain :
    (interfaces : ℕ → Interface) (msg : Msg) → IsPlain interfaces msg → once_passed msg ≡ msg
unfolding once_passed fd_passed
once_passed-plain interfaces msg p = rw (p.no_fd) refl

pub fd_passed-plain :
    (interfaces : ℕ → Interface) (msg : Msg) → IsPlain interfaces msg → fd_passed msg ≡ []
unfolding fd_passed
fd_passed-plain interfaces msg p = rw (p.no_fd) refl

-- The counts after a call that took `bw` bytes.
module _ (hsz sz h b bw : ℕ) where
  abbrev header_taken : ℕ
  header_taken = let left = if ltb h hsz then hsz - h else 0 in if ltb left bw then left else bw

  abbrev h_after : ℕ
  h_after = h + header_taken

  abbrev b_after : ℕ
  b_after = b + (bw - header_taken)

  module _ (i : IsInside hsz sz h b) (t : can_take (hsz - h + (sz - b)) bw ≡ true) where
    taken : h_after + b_after ≡ h + b + bw
    taken = ground (arith, i.header)

    within : bw ≤ hsz - h + (sz - b)
    unfolding can_take
    within = ground (arith, t)

    IsInside-after : IsInside hsz sz h_after b_after
    IsInside-after = record {
      header = ground (arith, i.header);
      body = ground (arith, i.header, i.body, within);
      in_order = ground (arith, i.header, i.in_order);
    }

    all_taken : 0 < sz → sz ≤ b_after → bw ≡ hsz - h + (sz - b)
    all_taken some_body q = ground (arith, within, i.header, i.body, i.in_order, q)

-- The bytes in the headers of messages without a body.
abbrev pub bodyless : (ℕ → Interface) → List Msg → ℕ
bodyless interfaces [] = 0
bodyless interfaces (msg ∷ rest) =
    (if body_size msg == 0 then length (header_of interfaces msg) else 0) + bodyless interfaces rest

-- A step of the byte queue: `bytes` are taken from its front, and then some may be lost of the header of a
-- message without a body.
pub record Takes (interfaces : ℕ → Interface) (s : Sender) (bytes : List ℕ) (s' : Sender)
    : Type 0 where
  pub valid : IsValid interfaces s'
  pub lost : List ℕ
  pub in_order : pending interfaces s ≡ bytes ++ (lost ++ pending interfaces s')
  pub few_lost : length lost + bodyless interfaces s'.outgoing ≤ bodyless interfaces s.outgoing

IsInsideFirst-start : (interfaces : ℕ → Interface) (ms : List Msg) → IsInsideFirst interfaces ms 0 0
IsInsideFirst-start interfaces [] = (refl, refl)
IsInsideFirst-start interfaces (m ∷ ms) = record {
  header = omega arith;
  body = omega arith;
  in_order = λ q. refl;
}

module _ (interfaces : ℕ → Interface) (msg : Msg) (rest : List Msg) (h b bw : ℕ)
    (p : IsPlain interfaces msg) (ps : AllPlain interfaces rest)
    (i : IsInside (length (header_of interfaces msg)) (body_size msg) h b)
    (t : can_take
        (length (
          given
            (header_of interfaces msg)
            msg
            (record { outgoing = msg ∷ rest; h_written = h; b_written = b })))
        bw
      ≡ true) where
  abbrev s : Sender
  s = record { outgoing = msg ∷ rest; h_written = h; b_written = b }

  abbrev hdr : List ℕ
  hdr = header_of interfaces msg

  abbrev hsz : ℕ
  hsz = length hdr

  may : can_take (hsz - h + (body_size msg - b)) bw ≡ true
  may = rw (sym (length-given interfaces msg p s i)) t

  abbrev h' : ℕ
  h' = h_after hsz (body_size msg) h b bw

  abbrev b' : ℕ
  b' = b_after hsz (body_size msg) h b bw

  abbrev pub next : Sender
  next =
      if leb (body_size msg) b'
      then record { outgoing = rest; h_written = 0; b_written = 0 }
      else record { outgoing = msg ∷ rest; h_written = h'; b_written = b' }

  pub advance-eq : advance hsz msg rest s bw ≡ some next
  unfolding advance
  advance-eq =
      let fits : leb b' (body_size msg) ≡ true =
        le→leb _ _ (IsInside.body (IsInside-after hsz (body_size msg) h b bw i may)) in
      rw (fits, once_passed-plain interfaces msg p) refl

  front :
      drop (h + b) (frames interfaces (msg ∷ rest))
      ≡ take bw (given hdr msg s) ++ drop (h + b + bw) (frames interfaces (msg ∷ rest))
  front =
      let len = length-given interfaces msg p s i in
      let fits : bw ≤ length (given hdr msg s) =
        omega (arith, len, within hsz (body_size msg) h b bw i may) in
      let at = pending-given interfaces msg p s i rest in
      at
      ∙ (take-drop_prefix bw (given hdr msg s) (frames interfaces rest) fits
          ∙ ap (λ (r : List ℕ). take bw (given hdr msg s) ++ r)
              (ap (drop bw) (sym at) ∙ drop-drop (h + b) bw (frames interfaces (msg ∷ rest))))

  -- What the call did not take of what it was given.
  abbrev left : List ℕ
  left = drop bw (given hdr msg s)

  -- When the message is over, the others are pending behind that.
  others : drop (h + b + bw) (frames interfaces (msg ∷ rest)) ≡ left ++ frames interfaces rest
  others =
      let len = length-given interfaces msg p s i in
      let at = pending-given interfaces msg p s i rest in
      let fits : bw ≤ length (given hdr msg s) =
        omega (arith, len, within hsz (body_size msg) h b bw i may) in
      sym (drop-drop (h + b) bw (frames interfaces (msg ∷ rest)))
      ∙ (ap (drop bw) at ∙ drop-append bw (given hdr msg s) (frames interfaces rest) fits)

  none-left : body_size msg ≤ b' → 0 < body_size msg → left ≡ []
  none-left whole some_body =
      let len = length-given interfaces msg p s i in
      drop_all bw (given hdr msg s)
        (omega (arith, len, all_taken hsz (body_size msg) h b bw i may some_body whole))

  few_left :
      body_size msg ≤ b' → length left + bodyless interfaces rest ≤ bodyless interfaces (msg ∷ rest)
  few_left whole = elim (Bool-cases (body_size msg == 0)) [
    | inl empty ↦
        let no_body : body_size msg ≡ 0 = ground (arith, empty) in
        let len = length-given interfaces msg p s i in
        let len' = length-drop bw (given hdr msg s) in rw empty (omega (arith, len, len', no_body))
    | inr more ↦
        let some_body : 0 < body_size msg = ground (arith, more) in
        let none_lost : length left ≡ 0 = ap length (none-left whole some_body) in
        rw more (omega (arith, none_lost))
  ]

  pub next-Takes : Takes interfaces s (take bw (given hdr msg s)) next
  unfolding pending
  next-Takes = elim (Bool-cases (leb (body_size msg) b')) [
    | inl whole ↦ rw whole record {
      valid = record { plain = ps; inside = IsInsideFirst-start interfaces rest };
      lost = left;
      in_order = front ∙ ap (λ (r : List ℕ). take bw (given hdr msg s) ++ r) others;
      few_lost = few_left (leb→le _ _ whole);
    }
    | inr part ↦ rw part record {
      valid = record { plain = (p, ps); inside = IsInside-after hsz (body_size msg) h b bw i may };
      lost = [];
      in_order =
          front
          ∙ ap (λ n. take bw (given hdr msg s) ++ drop n (frames interfaces (msg ∷ rest)))
              (sym (taken hsz (body_size msg) h b bw i may));
      few_lost = omega arith;
    }
  ]
