-- ===== src/Externs/Reading/Arrival.antt =====
-- The loop of `Extern_reading` over the pieces that a message comes in.
use casycom.Base.{
  ℕ, ◌+◌, ◌≤◌, ◌<◌, ◌≡◌, refl, ap, sym, ◌∙◌, Bool, List, [], ◌∷◌, ◌++◌, Option, some, arith, length,
  take, drop, if◌then◌else◌, length-append, length-drop,
}
use casycom.Base.Chain.{◌>>=◌}
use mathlib.Core.List.{append-nil}
use casycom.Msg.{Msg}
use casycom.FdIo.{Answer}
use casycom.Wire.{ExtMsgHeader}
use casycom.Externs.{Extern, Net}
use casycom.Externs.Incoming.{Program}
use casycom.Externs.Reading.{Chunk, reading, complete_message}
use casycom.Externs.Reading.Pieces.{take_whole}
use casycom.Externs.Reading.Position.{IsFrame, IsAt, at, block, piece_of}
use casycom.Externs.Reading.Assembly.{reading-part, reading-whole, IsAt-after, left-after, m', buf'}

abbrev pub join : List (List ℕ) → List ℕ → List ℕ
join [] last = last
join (c ∷ pieces) last = c ++ join pieces last

abbrev pub calls_of : List (List ℕ) → List ℕ → List (Answer Chunk) → List (Answer Chunk)
calls_of [] last calls = piece_of last ∷ calls
calls_of (c ∷ pieces) last calls = piece_of c ∷ calls_of pieces last calls

pub length-join : (pieces : List (List ℕ)) (last : List ℕ) → length last ≤ length (join pieces last)
length-join [] last = omega arith
length-join (c ∷ pieces) last =
    let l = length-append c (join pieces last) in
    let r = length-join pieces last in omega (arith, l, r)

-- What the loop does after a call.
abbrev pub goes_on :
    {U : Type 0}
    → Program
    → List ℕ
    → List ℕ
    → List (Answer Chunk)
    → Option (Bool × Extern × Net U)
    → Option (Extern × Net U)
goes_on p multiple recvmsg calls r =
    r >>= λ s. if s.0 then reading p multiple recvmsg calls s.1 s.2 else some (s.1, s.2)

module _ (whole body : List ℕ) (h b : ℕ) (left : drop h whole ++ drop b body ≡ []) where
  ends : (h ≤ length whole) → (b ≤ length body) → (h ≡ length whole) × (b ≡ length body)
  ends hw bb =
      let total : length (drop h whole) + length (drop b body) ≡ 0 =
        sym (length-append (drop h whole) (drop b body)) ∙ ap (λ (t : List ℕ). length t) left in
      let l1 = length-drop h whole in
      let l2 = length-drop b body in (omega (arith, l1, total, hw), omega (arith, l2, total, bb))

pair3 :
    {A B C : Type 0} {a a' : A} {b b' : B} {c c' : C}
    → a ≡ a'
    → b ≡ b'
    → c ≡ c'
    → Path (A × B × C) (a, b, c) (a', b', c')
pair3 p q r = cc

take_all :
    (n : ℕ) (d whole : List ℕ)
    → take n d ≡ take n whole
    → n ≡ length whole
    → take (length whole) d ≡ whole
take_all n d whole e t = ap (λ k. take k d) (sym t) ∙ (e ∙ take_whole n whole (omega (arith, t)))

module _ (fields : ExtMsgHeader) (names body : List ℕ) (f : IsFrame fields names body)
    (base : Extern) {U : Type 0} (p : Program) (multiple recvmsg : List ℕ)
    (calls : List (Answer Chunk)) (n : Net U) (last : List ℕ) (some_last : 0 < length last) where
  -- Once the fixed header of a message is read, and its names and its body, which is not empty, have
  -- the sizes that the header tells and fit, the loop of `Extern_reading` puts the rest of the message
  -- together from any pieces that `recvmsg` gives it in, if they come without ancillary data and the
  -- last one is not empty: it reaches the validation of a message with just the body that was sent,
  -- with the header and the names in its buffer, and goes on as that validation says.
  pub reading-pieces :
      (pieces : List (List ℕ)) (h b : ℕ) (m : Msg) (buf : List ℕ)
      → IsAt fields names body h b m buf
      → drop h (block fields names) ++ drop b body ≡ join pieces last
      → (buf' : List ℕ) × (take (length (block fields names)) buf' ≡ block fields names)
        × (reading p multiple recvmsg (calls_of pieces last calls) (at base h b m buf) n
            ≡ goes_on p multiple recvmsg calls (
                complete_message p
                  (at base
                    (length (block fields names))
                    (length body)
                    (record m { body = body })
                    buf')
                  (record m { body = body })
                  n))
  reading-pieces [] h b m buf i piece =
      let here : drop h (block fields names) ++ drop b body ≡ last ++ [] =
        piece ∙ sym (append-nil last) in
      let after = IsAt-after fields names body f base h b m buf i last [] here in
      let left = left-after fields names body f base h b m buf i last [] here in
      let (hh, bb) =
        ends (block fields names) body _ _ left after.inside.header after.inside.body in
      let text = take_all _ _ body after.text bb in
      let length_body = after.space in
      let whole : m' fields names body f base h b m buf i last [] here ≡ record m { body = body } =
        ap (λ (t : List ℕ). record m { body = t })
          (sym (take_whole (length body) _ (omega (arith, length_body))) ∙ text) in
      (
        _,
        take_all _ _ (block fields names) after.front hh,
        reading-whole fields names body f base h b m buf i last [] here p multiple recvmsg calls n
              refl
            ∙ ap
                (λ (s : ℕ × ℕ × Msg). goes_on p multiple recvmsg calls (
                  complete_message p
                    (at base s.0 s.1 s.2 (buf' fields names body f base h b m buf i last [] here))
                    s.2 n))
                (pair3 hh bb whole),
      )
  reading-pieces (c ∷ pieces) h b m buf i piece =
      let more : 0 < length (join pieces last) =
        let l = length-join pieces last in omega (arith, l, some_last) in
      let (buf'', front, e) =
        reading-pieces pieces _ _ _ _
          (IsAt-after fields names body f base h b m buf i c (join pieces last) piece)
          (left-after fields names body f base h b m buf i c (join pieces last) piece) in
      (
        buf'',
        front,
        reading-part fields names body f base h b m buf i c (join pieces last) piece p multiple
              recvmsg (calls_of pieces last calls) n more
            ∙ e,
      )
