-- ===== src/Tests/Journal.antt =====
-- The journal at concrete inputs: a line that waits, and an event that comes.
use unoq_ota.Prelude.{ℕ, zero, suc, pos, ◌≡◌, refl, ap, String, some, [], ◌∷◌, ◌++◌, inl, arith}
use unoq_ota.Outcome.{Outcome, ok, raised, other_error}
use unoq_ota.Python.{str, obj, Fields, end, field}
use unoq_ota.Events.{
  Journal, Env, contents_of, record_event, complete_lines, read_offset, flush_unsent, last_event,
}
use unoq_ota.Events.Flush.{IsFaithful, IsSound, mailbox}
use unoq_ota.Events.Delivery.{Turn, record_event-refines, record_event-delivers}

abbrev ones : ℕ → String
ones zero = ""
ones (suc n) = String.◌∷◌ "1" (ones n)

abbrev count : String → ℕ
count String.[] = 0
count (String.◌∷◌ c s) = suc (count s)

count-ones : (n : ℕ) → count (ones n) ≡ n
count-ones zero = refl
count-ones (suc n) = ap suc (count-ones n)

abbrev alarm : Fields
alarm = field "kind" (str "update") end

abbrev event : Fields
event = field "ts" (str "now") (field "device" (str "board-1") alarm)

-- A server that is up, or that is down.
abbrev site : Outcome (Unit {0}) → Env
site answer = record {
  report_url = some "https://x/events";
  device_id = "board-1";
  utc_now = λ j. "now";
  parse = λ b. some (obj event);
  dumps = λ f. 123 ∷ 125 ∷ [];
  int_of = λ s. some (pos (count s));
  str_of = ones;
  read = λ j. ok (contents_of j.contents);
  append = λ j b. (ok tt, some (contents_of j.contents ++ b));
  write_offset = λ j s. (ok tt, some s);
  post = λ j v. answer;
}

site-IsFaithful : (answer : Outcome (Unit {0})) → IsFaithful (site answer) event
unfolding complete_lines
site-IsFaithful answer = record {
  reports = refl;
  parses = refl;
  one_line = refl;
  numbers = λ n. ap (λ k. some (pos k)) (count-ones n);
  appends = λ j b. inl refl;
  reads = λ j. inl refl;
  writes = λ j s. refl;
}

-- One line is sent and one is not.
abbrev waiting : Journal
waiting = record {
  contents = some (123 ∷ 10 ∷ 91 ∷ 93 ∷ 10 ∷ []);
  offset = some "11";
  posted = str "first" ∷ [];
}

waiting-IsSound : (answer : Outcome (Unit {0})) → IsSound (site answer) waiting
unfolding read_offset
waiting-IsSound answer = record { within = omega arith; whole = refl }

all_sent :
    (record_event (site (ok tt)) alarm waiting).posted ≡ str "first" ∷ obj event ∷ obj event ∷ []
unfolding record_event flush_unsent
all_sent = refl

nothing_sent :
    (record_event (site (raised (other_error "down"))) alarm waiting).posted ≡ str "first" ∷ []
unfolding record_event flush_unsent
nothing_sent = refl

newest_dict : last_event (λ s. some (obj alarm)) (λ s. s) (some ("" ∷ "{}" ∷ "" ∷ [])) ≡ some alarm
unfolding last_event
newest_dict = refl

record_event-refines_example :
    IsSound
      (site (raised (other_error "down")))
      (record_event (site (raised (other_error "down"))) alarm waiting)
    × Turn (obj event) (mailbox (site (raised (other_error "down"))) waiting) (
        mailbox
          (site (raised (other_error "down")))
          (record_event (site (raised (other_error "down"))) alarm waiting))
record_event-refines_example =
    record_event-refines (site (raised (other_error "down"))) alarm waiting
      (site-IsFaithful (raised (other_error "down")))
      (waiting-IsSound (raised (other_error "down")))

record_event-delivers_example :
    mailbox (site (ok tt)) (record_event (site (ok tt)) alarm waiting) ≡ record {
      posted = waiting.posted ++ ((mailbox (site (ok tt)) waiting).unsent ++ (obj event ∷ []));
      unsent = [];
    }
record_event-delivers_example =
    record_event-delivers (site (ok tt)) alarm waiting (site-IsFaithful (ok tt))
      (waiting-IsSound (ok tt)) (λ i b. refl) (λ i. refl) (λ i v. refl)
