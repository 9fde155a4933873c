-- ===== src/Loop/Forwarding.antt =====
-- An error goes up the chain of creators.
use casycom.Base.{
  ℕ, zero, suc, ◌<◌, ◌≡◌, ◌≢◌, refl, ◌∙◌, Bool, true, false, List, [], ◌∷◌, Option, none, some,
  arith, ◌==◌, length,
}
use casycom.Links.{MsgLink, OMap}
use casycom.Loop.{Sys, Client, link_to, handles, clear_error, after_handler, forward_error}

-- The creator links from `oid` up: each one leads to the source of the one before.
pub data Creators (omap : OMap) : ℕ → List MsgLink → Type 0 where
  top : {oid : ℕ} → link_to omap oid ≡ none → Creators omap oid []
  created :
      {oid : ℕ} (ml : MsgLink) {above : List MsgLink}
      → link_to omap oid ≡ some ml
      → ml.h.src ≢ oid
      → Creators omap ml.h.src above
      → Creators omap oid (ml ∷ above)

module _ {U : Type 0} where
  unfoldable pub unless_handled : Bool × Sys U → (Sys U → Bool × Sys U) → Bool × Sys U
  unless_handled (true, t) next = (true, clear_error t)
  unless_handled (false, t) next = next t

  -- Each object of the chain is asked in turn, and told of the one below it, until one handles the
  -- error.
  unfoldable pub ask : Client U → ℕ → ℕ → List MsgLink → Sys U → Bool × Sys U
  ask client oid eoid [] s = (false, s)
  ask client oid eoid (ml ∷ above) s =
      unless_handled (handles client ml eoid s) (ask client ml.h.src oid above)

  -- A handler that does not handle the error leaves the links as they were.
  abbrev pub DeclinesQuietly : Client U → Type 0
  DeclinesQuietly client =
      (ml : MsgLink) (eoid : ℕ) (s t : Sys U)
      → handles client ml eoid s ≡ (false, t)
      → t.omap ≡ s.omap

  forward_step :
      (client : Client U) (fuel oid eoid : ℕ) (s : Sys U) (ml : MsgLink)
      → link_to s.omap oid ≡ some ml
      → ml.h.src ≢ oid
      → forward_error client (suc fuel) oid eoid s
        ≡ after_handler (handles client ml eoid s) (forward_error client fuel ml.h.src oid)
  unfolding forward_error
  forward_step client fuel oid eoid s ml e n =
      let other : (ml.h.src == oid) ≡ false = ground (arith, n) in rw (e, forward_error, other) refl

  forward_top :
      (client : Client U) (fuel oid eoid : ℕ) (s : Sys U)
      → link_to s.omap oid ≡ none
      → forward_error client (suc fuel) oid eoid s ≡ some (false, s)
  unfolding forward_error
  forward_top client fuel oid eoid s e = rw (e, forward_error) refl

  after_unless :
      (r : Bool × Sys U) (failed : Sys U → Option (Bool × Sys U)) (next : Sys U → Bool × Sys U)
      → ((t : Sys U) → r ≡ (false, t) → failed t ≡ some (next t))
      → after_handler r failed ≡ some (unless_handled r next)
  unfolding after_handler unless_handled
  after_unless (true, t) failed next h = refl
  after_unless (false, t) failed next h = h t refl

  -- When a handler that declines an error leaves the links as they were and the chain of creators
  -- from the object up is finite, with more fuel than its length `casycom_forward_error` returns
  -- what asking the chain gives: each object is told of the one below it until one handles the
  -- error, which is then cleared; when none does, the result is false.
  pub forward_error-ask :
      (client : Client U) (fuel oid eoid : ℕ) (s : Sys U) (chain : List MsgLink)
      → DeclinesQuietly client
      → Creators s.omap oid chain
      → length chain < fuel
      → forward_error client fuel oid eoid s ≡ some (ask client oid eoid chain s)
  unfolding ask
  forward_error-ask client zero oid eoid s chain quiet c h = absurd (omega arith)
  forward_error-ask client (suc fuel) oid eoid s [] quiet (top e) h =
      forward_top client fuel oid eoid s e
  forward_error-ask client (suc fuel) oid eoid s (ml ∷ above) quiet (created _ e n c) h =
      forward_step client fuel oid eoid s ml e n
      ∙ after_unless (handles client ml eoid s) _ _ (λ t declined.
        forward_error-ask client fuel ml.h.src oid t above quiet (rw (quiet ml eoid s t declined) c)
          (omega arith))
