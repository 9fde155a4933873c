-- ===== src/Tests/Routing.antt =====
-- A table of three links to two objects, and a table of classes.
use casycom.Base.{ℕ, List, [], ◌∷◌, arith, ◌==◌, if◌then◌else◌}
use casycom.Msg.{Proxy}
use casycom.Links.{MsgLink, OMap, find_destination, create_link_to, free_oid}
use casycom.Links.Order.{IsSorted}
use casycom.Links.Search.{Finds, find_destination-Finds}
use casycom.Links.Entry.{Entered, create_link_to-Entered}
use casycom.Links.Fresh.{FirstFree, free_oid-FirstFree}
use casycom.Registry.{Dtable, Registry}

abbrev link : ℕ → ℕ → ℕ → MsgLink
link o src dest = record {
  o = o;
  factory = 80;
  h = record { interface = 5; src = src; dest = dest };
  flags = 0;
}

abbrev routes : OMap
routes = link 1000 0 1 ∷ link 2000 1 2 ∷ link 0 4 2 ∷ []

routes-IsSorted : IsSorted routes
routes-IsSorted = ((omega arith, (omega arith, tt)), ((omega arith, tt), (tt, tt)))

find_destination-Finds_example : Finds 2 routes (find_destination routes 2)
find_destination-Finds_example = find_destination-Finds routes 2 routes-IsSorted

abbrev third : Proxy
third = record { interface = 5; src = 3; dest = 1 }

create_link_to-Entered_example : Entered 80 third routes (create_link_to routes 80 third)
create_link_to-Entered_example = create_link_to-Entered routes 80 third routes-IsSorted

free_oid-FirstFree_example : FirstFree routes 1 (free_oid routes)
free_oid-FirstFree_example = free_oid-FirstFree routes routes-IsSorted (omega arith)

-- A class at 80 with the interface 5, and a default class at 90 with the interface 6.
abbrev dtables : ℕ → List Dtable
dtables o =
    if o == 80
    then record { at = 81; interface = 5 } ∷ []
    else if o == 90
    then record { at = 91; interface = 6 } ∷ []
    else []

abbrev names : ℕ → List ℕ
names iid = if iid == 5 then b'I' ∷ b'O' ∷ [] else b'X' ∷ []

abbrev classes : Registry
classes = record { object_table = 80 ∷ []; default_object = 90 }
