-- ===== src/Tests/Rounds.antt =====
-- Two objects, of which the one at 2000 was made by the one at 1000.
use casycom.Base.{
  ℕ, sym, ap, ◌∙◌, inl, inr, Bool-cases, ◌+◌, ◌≡◌, refl, Bool, true, false, [], ◌∷◌, ◌++◌, some,
  none, arith, ◌==◌,
}
use casycom.Msg.{Msg}
use casycom.Links.{MsgLink, find_destination, omap_lower_bound, before, place_of}
use casycom.Base.Bisect.{bisect}
use casycom.Loop.{Sys, Client, link_to, handles, forward_error}
use casycom.Loop.Forwarding.{Creators, top, created, ask, DeclinesQuietly, forward_error-ask}

abbrev pub link : ℕ → ℕ → ℕ → MsgLink
link o src dest = record {
  o = o;
  factory = 80;
  h = record { interface = 5; src = src; dest = dest };
  flags = 0;
}

abbrev pub note : ℕ → Msg
note dest = record {
  h = record { interface = 5; src = 1; dest = dest };
  imethod = 0;
  size = 0;
  extid = 0;
  fdoffset = 255;
  body = [];
}

-- The third object is not made yet. `user` counts the messages delivered.
abbrev pub sys : Sys ℕ
sys = record {
  omap = link 1000 0 1 ∷ link 2000 1 2 ∷ link 0 2 3 ∷ [];
  registry = record { object_table = 80 ∷ []; default_object = 0 };
  input_queue = note 3 ∷ note 2 ∷ [];
  output_queue = note 1 ∷ [];
  error = none;
  quitting = false;
  exit_code = 0;
  user = 0;
}

-- Each object answers a message with one to the object 2, and none handles errors but the one at 1000.
abbrev pub client : Client ℕ
client = record {
  dtable = λ o. record { at = 81; interface = 5 } ∷ [];
  create = λ factory msg s. (3000, s);
  has_error = λ factory. true;
  handle = λ factory o eoid s. (o == 1000, s);
  dispatch =
      λ d o msg s. record s { output_queue = s.output_queue ++ (note 2 ∷ []); user = s.user + 1 };
}

abbrev failed : Sys ℕ
failed = record sys { error = some (b'x' ∷ []) }

same_state : (ml : MsgLink) (eoid : ℕ) (s : Sys ℕ) → (handles client ml eoid s).1 ≡ s
unfolding handles
same_state ml eoid s = elim (Bool-cases (ml.o == 0)) [
  | inl e ↦ rw (e, handles) refl
  | inr e ↦ rw (e, handles) refl
]

client-DeclinesQuietly : DeclinesQuietly client
client-DeclinesQuietly ml eoid s t h =
    ap (λ (p : Bool × Sys ℕ). p.1.omap) (sym h) ∙ ap (λ (r : Sys ℕ). r.omap) (same_state ml eoid s)

chain : Creators failed.omap 2 (link 2000 1 2 ∷ link 1000 0 1 ∷ [])
unfolding link_to find_destination omap_lower_bound bisect before place_of
chain =
    created {oid = 2} (link 2000 1 2) refl (omega arith)
      (created {oid = 1} (link 1000 0 1) refl (omega arith) (top {oid = 0} refl))

forward_error-ask_example :
    forward_error client 4 2 2 failed
    ≡ some (ask client 2 2 (link 2000 1 2 ∷ link 1000 0 1 ∷ []) failed)
forward_error-ask_example =
    forward_error-ask client 4 2 2 failed (link 2000 1 2 ∷ link 1000 0 1 ∷ [])
      client-DeclinesQuietly chain (omega arith)
