-- ===== src/Tests/Base.antt =====
-- Managers over the stub backend, for the tests and the examples: the certificate has handle 1 and
-- the key handle 2.
use osclientcerts.Prelude.{ℕ, ◌≡◌, refl, arith}
use osclientcerts.ByteOrder.{little_endian}
use osclientcerts.Cryptoki.{standard}
use osclientcerts.Backend.{Backend}
use osclientcerts.Backend.Stub.{StubOs, stub}
use osclientcerts.BTreeMap.{get}
use osclientcerts.BTreeMap
use osclientcerts.Manager.State.{Manager, empty}
use osclientcerts.Manager.Scan.{
  new, open_session, contains, add_object, admit, admit_all, maybe_find_new_objects,
}
use osclientcerts.Manager.Sign.{start_sign}
use osclientcerts.Manager.Decrypt.{start_decrypt}
use osclientcerts.Manager.Encrypt.{start_encrypt}
use osclientcerts.Mechanism.{pkcs1v15}
use osclientcerts.Prelude.{Option, none}
use osclientcerts.Cryptoki.{PssParams}
use osclientcerts.Manager.Requests.{ManagerArguments, dispatch}
use osclientcerts.Manager.Invariant.{IsValid}
use osclientcerts.Manager.Invariant.Scan.{HasRoom}
use osclientcerts.Manager.Invariant.Reach.{CanCount, Reachable, start, step, Reachable-IsValid}

abbrev pub B : Backend
B = stub standard little_endian

abbrev pub at_time : ℕ → StubOs
at_time t = record { time = t }

abbrev pub os : B.Os
unfolding stub
os = at_time 0

-- A manager with the two objects, and one with an open session 1.
unfoldable pub fresh : Manager B
unfolding new stub little_endian contains add_object admit admit_all maybe_find_new_objects
    BTreeMap.get BTreeMap.insert BTreeMap.remove
fresh = new B os

pub fresh_next : fresh.next_handle ≡ 3
unfolding fresh
fresh_next = refl

room : HasRoom B os (empty B)
unfolding stub empty
room = omega arith

pub fresh-Reachable : Reachable B fresh
unfolding fresh
fresh-Reachable = start os room

pub can_count : CanCount B os fresh
unfolding fresh
can_count = record { objects = omega arith; sessions = omega arith }

unfoldable pub opened : Manager B
unfolding fresh dispatch open_session
opened = (dispatch B os (ManagerArguments.open_session 6) fresh).1

pub opened-IsValid : IsValid B opened
unfolding opened
opened-IsValid =
    Reachable-IsValid B
      (step {m = fresh} os (ManagerArguments.open_session 6) fresh-Reachable can_count)

-- Session 1 with a sign, a decrypt and an encrypt operation, all with the key.
abbrev pub pss : Option PssParams
pss = none

unfoldable pub signing : Manager B
unfolding opened
signing = (start_sign B 1 2 pss opened).1

unfoldable pub decrypting : Manager B
unfolding opened
decrypting = (start_decrypt B 1 2 pkcs1v15 opened).1

unfoldable pub encrypting : Manager B
unfolding opened
encrypting = (start_encrypt B 1 1 pkcs1v15 opened).1
