-- ===== src/Tests/Loops.antt =====
-- A main loop without objects.
use casycom.Base.{ℕ, ◌≡◌, refl, false, [], ◌∷◌, some}
use casycom.Iids
use casycom.Loop.{do_message_queues, deliver_all}
use casycom.Destruction.{unused_from}
use casycom.MainLoop.{Main, Host, Round, exit_success, casycom_main}
use casycom.MainLoop.Ends.{IsDone, ended, casycom_main-ends}
use casycom.Tests.Nets.{sys, proxy}

abbrev pub host : Host ℕ
host = record {
  client = record {
    dtable = λ o. [];
    create = λ factory msg s. (0, s);
    has_error = λ factory. false;
    handle = λ factory o eoid s. (false, s);
    dispatch = λ d o msg s. s;
  };
  destructors = record {
    destroy = λ f o s. s;
    has_destroyed = λ f. false;
    object_destroyed = λ f o oid s. s;
  };
  watches = λ u. [];
  fuel = 1;
}

abbrev pub round : Round
round = record { before = 0; poll = λ polled. (0, []) }

abbrev pub main : Main ℕ
main = record {
  sys = sys;
  last_signal = 0;
  last_child_pid = 0;
  last_child_status = 0;
  appp = proxy Iids.app 0 1;
}

delivered : do_message_queues host.client 1 (record sys { quitting = false }) ≡ some sys
unfolding do_message_queues deliver_all
delivered = refl

done : IsDone host sys
unfolding unused_from
done = record { input = refl; output = refl; unused = refl; watches = refl }

casycom_main-ends_example :
    casycom_main host (round ∷ []) main ≡ some (exit_success, record main { sys = ended sys })
casycom_main-ends_example = casycom_main-ends host round [] main sys 0 refl refl delivered done
