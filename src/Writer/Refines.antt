-- ===== src/Writer/Refines.antt =====
-- The writer sends the bytes that are pending, in their order.
use mathlib.Core.List.{append_assoc}
use casycom.Base.{
  ℕ, ◌≡◌, refl, ap, ◌∙◌, sym, List, [], ◌∷◌, ◌++◌, some, length, length-append, arith, ◌≤◌, take,
  true, inl, inr, Bool-cases,
}
use casycom.Msg.{Interface, Msg}
use casycom.FdIo.{
  Answer, Ending, done, closed, again, interrupted, failed, complete, at_eof, must_wait, with_error,
}
use casycom.Writer.{Sender, Sent, stop, given, writing, fd_passed}
use casycom.Writer.Pending.{header_of, pending, IsValid}
use casycom.Writer.Steps.{
  can_take, allowed, bodyless, fd_passed-plain, Takes, next, advance-eq, next-Takes,
}

-- A queue of bytes from which `bytes` were taken and `lost` were lost, piece by piece from the front, with
-- `rest` behind them.
pub data Drained (rest : List ℕ) : (queue bytes lost : List ℕ) → Type 0 where
  no_more : Drained rest rest [] []
  taken :
      {queue bytes lost : List ℕ} (piece : List ℕ)
      → Drained rest queue bytes lost
      → Drained rest (piece ++ queue) (piece ++ bytes) lost
  dropped :
      {queue bytes lost : List ℕ} (piece : List ℕ)
      → Drained rest queue bytes lost
      → Drained rest (piece ++ queue) bytes (piece ++ lost)

-- The bytes sent and those lost were at the front of the queue, and the rest still stands in it; at
-- most the headers of messages without a body are lost.
pub record Refines (interfaces : ℕ → Interface) (s : Sender) (w : Sent) : Type 0 where
  pub valid : IsValid interfaces w.sender
  pub lost : List ℕ
  pub in_order : Drained (pending interfaces w.sender) (pending interfaces s) w.bytes lost
  pub few_lost : length lost ≤ bodyless interfaces s.outgoing
  pub no_fds : w.fds ≡ []
  pub all_if_complete : w.ending ≡ complete → w.sender.outgoing ≡ []

-- When nothing is lost, the bytes sent and the rest are the queue.
pub Drained-whole :
    {rest queue bytes lost : List ℕ}
    → Drained rest queue bytes lost
    → lost ≡ []
    → queue ≡ bytes ++ rest
Drained-whole no_more h = refl
Drained-whole {rest} (taken {queue} {bytes} piece d) h =
    ap (λ (t : List ℕ). piece ++ t) (Drained-whole d h) ∙ sym (append_assoc piece bytes rest)
Drained-whole (dropped [] d) h = Drained-whole d h
Drained-whole (dropped (x ∷ piece) d) h = cc

stop-Refines :
    (interfaces : ℕ → Interface) (s : Sender) (ending : Ending)
    → IsValid interfaces s
    → (ending ≡ complete → s.outgoing ≡ [])
    → Refines interfaces s (stop s ending)
stop-Refines interfaces s ending v h = record {
  valid = v;
  lost = [];
  in_order = no_more;
  few_lost = omega arith;
  no_fds = refl;
  all_if_complete = h;
}

after-Refines :
    (interfaces : ℕ → Interface) (s s' : Sender) (bytes fds : List ℕ) (w : Sent)
    → fds ≡ []
    → Takes interfaces s bytes s'
    → Refines interfaces s' w
    → Refines interfaces s (record w { bytes = bytes ++ w.bytes; fds = fds ++ w.fds })
after-Refines interfaces s s' bytes fds w passed step r = record {
  valid = r.valid;
  lost = step.lost ++ r.lost;
  in_order = rw (step.in_order) (taken bytes (dropped step.lost r.in_order));
  few_lost = omega (arith, length-append step.lost r.lost, step.few_lost, r.few_lost);
  no_fds = rw passed r.no_fds;
  all_if_complete = r.all_if_complete;
}

pub writing-Refines :
    (interfaces : ℕ → Interface) (calls : List (Answer ℕ)) (outs : List Msg) (h b : ℕ)
    → let s : Sender = record { outgoing = outs; h_written = h; b_written = b } in
      IsValid interfaces s
      → allowed interfaces calls s ≡ true
      → (w : Sent) × (writing interfaces calls s ≡ some w) × Refines interfaces s w
unfolding writing allowed
writing-Refines interfaces [] [] h b v a =
    (stop _ complete, refl, stop-Refines interfaces _ complete v (λ q. refl))
writing-Refines interfaces [] (msg ∷ rest) h b v a = cc
writing-Refines interfaces (x ∷ calls) [] h b v a =
    (stop _ complete, refl, stop-Refines interfaces _ complete v (λ q. refl))
writing-Refines interfaces (done bw ∷ calls) (msg ∷ rest) h b v a =
    let p = v.plain.0 in
    let s : Sender = record { outgoing = msg ∷ rest; h_written = h; b_written = b } in
    elim (Bool-cases (can_take (length (given (header_of interfaces msg) msg s)) bw)) [
      | inl t ↦
          let n = next interfaces msg rest h b bw p v.plain.1 v.inside t in
          let e = advance-eq interfaces msg rest h b bw p v.plain.1 v.inside t in
          let step = next-Takes interfaces msg rest h b bw p v.plain.1 v.inside t in
          let (w, ran, r) =
            writing-Refines interfaces calls n.outgoing n.h_written n.b_written step.valid
              (rw (t, e) at a) in
          let fds = fd_passed-plain interfaces msg p in
          (
            record w {
              bytes = take bw (given (header_of interfaces msg) msg s) ++ w.bytes;
              fds = fd_passed msg ++ w.fds;
            },
            rw (p.named, e, ran) refl,
            after-Refines interfaces s n _ (fd_passed msg) w fds step r,
          )
      | inr f ↦ absurd (let q = rw f at a in cc)
    ]
writing-Refines interfaces (closed ∷ calls) (msg ∷ rest) h b v a =
    (stop _ at_eof, rw (v.plain.0.named) refl, stop-Refines interfaces _ at_eof v (λ q. cc))
writing-Refines interfaces (again ∷ calls) (msg ∷ rest) h b v a =
    (stop _ must_wait, rw (v.plain.0.named) refl, stop-Refines interfaces _ must_wait v (λ q. cc))
writing-Refines interfaces (interrupted ∷ calls) (msg ∷ rest) h b v a =
    rw (v.plain.0.named) (writing-Refines interfaces calls (msg ∷ rest) h b v a)
writing-Refines interfaces (failed e ∷ calls) (msg ∷ rest) h b v a = (
  stop _ (with_error e),
  rw (v.plain.0.named) refl,
  stop-Refines interfaces _ (with_error e) v (λ q. cc),
)
