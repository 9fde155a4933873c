-- ===== src/Tests/Typing.antt =====
-- A message to an object that is not made yet, with the checks.
use casycom.Base.{ℕ, [], ◌∷◌, ◌++◌}
use casycom.Msg.{Interface, Msg}
use casycom.Loop.{Client}
use casycom.Tests.Rounds.{client, note, link}

-- One method without arguments.
abbrev interfaces : ℕ → Interface
interfaces i = record { name = b'N' ∷ []; method = (b'n' ∷ [], []) ∷ [] }

-- From the object 2 to the object 3.
abbrev call : Msg
call = record (note 3) { h = record { interface = 5; src = 2; dest = 3 } }

-- The constructor makes a proxy.
abbrev maker : Client ℕ
maker = record client {
  create = λ f msg s. (3000, record s { omap = s.omap ++ (link 0 3 4 ∷ []) });
}
