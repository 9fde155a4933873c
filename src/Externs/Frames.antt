-- ===== src/Externs/Frames.antt =====
-- The bytes that `Extern_writing` puts on a socket for one message, as the reader takes them apart.
use casycom.Base.{
  ℕ, ◌+◌, ◌-◌, ◌%◌, ◌≤◌, ◌<◌, ◌≡◌, refl, ap, sym, ◌∙◌, true, false, ◌==◌, List, [], ◌∷◌, ◌++◌, some,
  arith, length, drop, ceilg, length-append, length-replicate,
}
use mathlib.Core.Option.{some-injective}
use mathlib.Core.List.{append-nil}
use casycom.Msg.{Interface, Msg, no_fd_in_message}
use casycom.FdIo.{Answer, complete}
use casycom.Wire.{ExtMsgHeader, header_size, validate_message_header, name_bytes}
use casycom.Wire.Strings.{drop_nil}
use casycom.Wire.RoundTrip.{
  IsWritable, fields, header, pad, padded, padded_bounds, ceilg_8, fields-IsInRange, marshal-eq,
}
use casycom.Writer.{Sender, Sent, writing, body_size, body_bytes}
use casycom.Writer.Pending.{frame, frames, pending, header_of, IsPlain, IsValid, length-body_bytes}
use casycom.Writer.Steps.{allowed}
use casycom.Writer.Refines.{Refines, Drained-whole, writing-Refines}
use casycom.Externs.Reading.Position.{IsFrame}

-- A message without a descriptor and with a body, whose block holds it.
pub record IsSendable (interfaces : ℕ → Interface) (sent : Msg) (m : List ℕ × List ℕ) : Type 0 where
  pub writable : IsWritable interfaces sent m
  pub no_fd : sent.fdoffset ≡ no_fd_in_message
  pub some_body : 0 < sent.size
  pub block : body_size sent ≤ length sent.body

pending-empty :
    (interfaces : ℕ → Interface) (s : Sender) → s.outgoing ≡ [] → pending interfaces s ≡ []
unfolding pending frames
pending-empty interfaces s none_left =
    ap (λ (outs : List Msg). drop (s.h_written + s.b_written) (frames interfaces outs)) none_left
    ∙ drop_nil (s.h_written + s.b_written)

no_bytes : (xs : List ℕ) → length xs ≤ 0 → xs ≡ []
no_bytes [] h = refl
no_bytes (x ∷ xs) h = absurd (omega arith)

-- A writer with just this message.
abbrev pub only : Msg → Sender
only sent = record { outgoing = sent ∷ []; h_written = 0; b_written = 0 }

pending-only :
    (interfaces : ℕ → Interface) (sent : Msg)
    → pending interfaces (only sent) ≡ frame interfaces sent
unfolding pending frames
pending-only interfaces sent = append-nil (frame interfaces sent)

validate_message_header-plain :
    (h : ExtMsgHeader)
    → h.hsz % 8 ≡ 0
    → h.sz % 8 ≡ 0
    → h.fdoffset ≡ no_fd_in_message
    → validate_message_header h ≡ true
unfolding validate_message_header
validate_message_header-plain h hsz sz fd = ground (arith, hsz, sz, fd)

module _ (interfaces : ℕ → Interface) (sent : Msg) (m : List ℕ × List ℕ)
    (s : IsSendable interfaces sent m) where
  abbrev pub its_fields : ExtMsgHeader
  its_fields = fields interfaces sent m s.writable

  abbrev pub its_names : List ℕ
  its_names = name_bytes (interfaces sent.h.interface) m ++ pad interfaces sent m s.writable

  pub header_of-eq : header_of interfaces sent ≡ header interfaces sent m s.writable
  unfolding header_of
  header_of-eq = rw (header_of, marshal-eq interfaces sent m s.writable) refl

  plain : IsPlain interfaces sent
  plain = record {
    no_fd = s.no_fd;
    named =
        marshal-eq interfaces sent m s.writable ∙ ap (λ (h : List ℕ). some h) (sym header_of-eq);
    block = s.block;
  }

  length-names : length its_names ≡ padded interfaces sent m s.writable
  length-names = omega (
    arith,
    padded_bounds interfaces sent m s.writable,
    length-append (name_bytes (interfaces sent.h.interface) m) (pad interfaces sent m s.writable),
    length-replicate {A = ℕ}
        (padded interfaces sent m s.writable - length (name_bytes (interfaces sent.h.interface) m))
        0,
  )

  length-body : length (body_bytes sent) ≡ ceilg sent.size 8
  unfolding body_size
  length-body = length-body_bytes interfaces sent plain

  pub frame-IsFrame : IsFrame its_fields its_names (body_bytes sent)
  frame-IsFrame =
      let b = padded_bounds interfaces sent m s.writable in
      let c = ceilg_8 sent.size in
      record {
        range = fields-IsInRange interfaces sent m s.writable;
        hsz = ap (λ k. header_size + k) (sym length-names);
        fits = omega (arith, length-names, b.1);
        sz = sym length-body;
        valid = validate_message_header-plain its_fields (omega (arith, b.2)) c.2 s.no_fd;
        some_body = omega (arith, length-body, c.0, s.some_body);
      }

  only-IsValid : IsValid interfaces (only sent)
  only-IsValid = record {
    plain = (plain, tt);
    inside = record { header = omega arith; body = omega arith; in_order = λ h. refl };
  }

  bodied : (body_size sent == 0) ≡ false
  unfolding body_size
  bodied = let more = s.some_body in let c = ceilg_8 sent.size in ground (arith, more, c.0)

  none_lost : (w : Sent) (r : Refines interfaces (only sent) w) → r.lost ≡ []
  none_lost w r = let few = rw bodied at (r.few_lost) in no_bytes r.lost (omega (arith, few))

  frame_of :
      (w : Sent)
      → Refines interfaces (only sent) w
      → w.ending ≡ complete
      → w.bytes ≡ frame interfaces sent
  frame_of w r done =
      sym (append-nil w.bytes)
      ∙ (ap (λ (t : List ℕ). w.bytes ++ t)
            (sym (pending-empty interfaces w.sender (r.all_if_complete done)))
          ∙ (sym (Drained-whole r.in_order (none_lost w r)) ∙ pending-only interfaces sent))

  -- A writer that is done has written just the frame.
  pub written-frame :
      (calls : List (Answer ℕ)) (w : Sent)
      → allowed interfaces calls (only sent) ≡ true
      → writing interfaces calls (only sent) ≡ some w
      → w.ending ≡ complete
      → w.bytes ≡ frame interfaces sent
  written-frame calls w a e done =
      let (w', e', r) = writing-Refines interfaces calls (sent ∷ []) 0 0 only-IsValid a in
      let same : w' ≡ w = some-injective w' w (sym e' ∙ e) in frame_of w (rw same at r) done
