-- ===== src/Events/Delivery.antt =====
-- The events that the report server accepts (`EventLog.record` of unoq_ota/events.py), against a queue.
use unoq_ota.Prelude.{
  ◌≡◌, refl, ap, sym, ◌∙◌, inl, inr, Option, none, some, List, [], ◌∷◌, ◌++◌, drop, arith,
  append_nil, drop-append, length-append,
}
use unoq_ota.Outcome.{ok, raised, Raised}
use unoq_ota.Python.{Value, obj, Fields}
use unoq_ota.Artifact.{Bytes}
use unoq_ota.Events.{
  Journal, Env, complete_lines, contents_of, flush_unsent, event_of, append, record_event,
}
use unoq_ota.Events.Lines.{
  ends_line, complete_lines-append, ends_line-append, complete_lines-line, ends_line-line,
}
use unoq_ota.Events.Flush.{
  IsFaithful, prepend, events_of, data_of, offset_of, IsSound, Mailbox, mailbox, mailbox-eq,
  flush_unsent-Flushed,
}

-- A record of an event: it is refused and nothing changes, or it joins the queue, from whose front some
-- events are then sent.
pub data Turn (e : Value) (m : Mailbox) : Mailbox → Type 0 where
  refused : Turn e m m
  queued :
      (sent left : List Value)
      → m.unsent ++ (e ∷ []) ≡ sent ++ left
      → Turn e m (record { posted = m.posted ++ sent; unsent = left })

module _ (env : Env) (event : Fields) (faithful : IsFaithful env event) where
  abbrev appended : Journal → Fields → Journal
  appended j e = record j { contents = some (data_of j ++ (env.dumps e ++ (10 ∷ []))) }

  appended-data :
      (j : Journal) (e : Fields)
      → IsSound env j
      → drop (offset_of env j) (data_of (appended j e))
        ≡ drop (offset_of env j) (data_of j) ++ (env.dumps e ++ (10 ∷ []))
  appended-data j e s =
      drop-append (offset_of env j) (data_of j) (env.dumps e ++ (10 ∷ [])) s.within

  appended-IsSound : (j : Journal) (e : Fields) → IsSound env j → IsSound env (appended j e)
  appended-IsSound j e s = record {
    within = omega (arith, s.within, length-append (data_of j) (env.dumps e ++ (10 ∷ [])));
    whole =
        ap ends_line (appended-data j e s)
        ∙ ends_line-append (drop (offset_of env j) (data_of j)) (env.dumps e ++ (10 ∷ [])) s.whole
            (ends_line-line (env.dumps e));
  }

  prepend-append : (o : Option Value) (l m : List Value) → prepend o (l ++ m) ≡ prepend o l ++ m
  prepend-append none l m = refl
  prepend-append (some v) l m = refl

  events_of-append :
      (ls ms : List Bytes) → events_of env (ls ++ ms) ≡ events_of env ls ++ events_of env ms
  events_of-append [] ms = refl
  events_of-append (l ∷ ls) ms =
      ap (prepend (env.parse l)) (events_of-append ls ms)
      ∙ prepend-append (env.parse l) (events_of env ls) (events_of env ms)

  mailbox-appended :
      (j : Journal)
      → IsSound env j
      → (mailbox env (appended j event)).unsent ≡ (mailbox env j).unsent ++ (obj event ∷ [])
  mailbox-appended j s =
      let unread = drop (offset_of env j) (data_of j) in
      let line = env.dumps event ++ (10 ∷ []) in
      ap (λ k. events_of env (complete_lines k)) (appended-data j event s)
      ∙ ap (events_of env) (complete_lines-append unread line s.whole)
      ∙ events_of-append (complete_lines unread) (complete_lines line)
      ∙ ap (λ k. events_of env (complete_lines unread) ++ events_of env k)
          (complete_lines-line (env.dumps event) (faithful.one_line))
      ∙ ap (λ v. events_of env (complete_lines unread) ++ prepend v []) (faithful.parses)

  record_event-ok :
      (fields : Fields) (j : Journal)
      → env.append j (env.dumps (event_of env fields j) ++ (10 ∷ []))
        ≡ (ok tt, (appended j (event_of env fields j)).contents)
      → record_event env fields j ≡ (flush_unsent env (appended j (event_of env fields j))).1
  unfolding record_event append
  record_event-ok fields j e = rw e refl

  record_event-raised :
      (fields : Fields) (j : Journal) (x : Raised) (held : Option Bytes)
      → env.append j (env.dumps (event_of env fields j) ++ (10 ∷ [])) ≡ (raised x, held)
      → record_event env fields j ≡ record j { contents = held }
  unfolding record_event append
  record_event-raised fields j x held e = rw e refl

  record_event-turns :
      (j : Journal)
      → IsSound env j
      → IsSound env (flush_unsent env (appended j event)).1
        × Turn (obj event) (mailbox env j) (mailbox env (flush_unsent env (appended j event)).1)
  record_event-turns j s =
      let f =
        flush_unsent-Flushed env event faithful (appended j event) (appended-IsSound j event s) in
      let j' = (flush_unsent env (appended j event)).1 in
      (
        f.sound,
        rw f.posts (queued f.sent (mailbox env j').unsent (sym (mailbox-appended j s) ∙ f.splits)),
      )

  held-turns :
      (e : Value) (j : Journal) (held : Option Bytes)
      → contents_of held ≡ contents_of j.contents
      → IsSound env j
      → IsSound env (record j { contents = held })
        × Turn e (mailbox env j) (mailbox env (record j { contents = held }))
  held-turns e j held same s =
      (record { within = rw same s.within; whole = rw same s.whole }, rw same refused)

-- Recording an event on a sound journal leaves a sound journal, and refines one turn of the queue: the
-- journal refuses the event and no event is sent or lost, or the event joins the queue of unsent events
-- and the server gets some of these from the front, each once and in order. The hypotheses on the
-- libraries are those of `IsFaithful`; the server may accept or refuse what it will.
pub record_event-refines :
    (env : Env) (fields : Fields) (j : Journal)
    → IsFaithful env (event_of env fields j)
    → IsSound env j
    → IsSound env (record_event env fields j)
      × Turn (obj (event_of env fields j)) (mailbox env j) (mailbox env (record_event env fields j))
record_event-refines env fields j faithful s =
    let e = event_of env fields j in
    elim (faithful.appends j (env.dumps e ++ (10 ∷ []))) [
      | inl done ↦
          rw (record_event-ok env e faithful fields j done) (record_event-turns env e faithful j s)
      | inr (x, held, failed, same) ↦
          rw (record_event-raised env e faithful fields j x held failed)
            (held-turns env e faithful (obj e) j held same s)
    ]

-- Where the file is appended to and read, and the server accepts whatever it is sent, it has after a
-- record of an event all that was unsent, and the event, and nothing is left unsent.
pub record_event-delivers :
    (env : Env) (fields : Fields) (j : Journal)
    → IsFaithful env (event_of env fields j)
    → IsSound env j
    → ((i : Journal) (b : Bytes) → (env.append i b).0 ≡ ok tt)
    → ((i : Journal) → env.read i ≡ ok (data_of i))
    → ((i : Journal) (v : Value) → env.post i v ≡ ok tt)
    → mailbox env (record_event env fields j) ≡ record {
      posted = j.posted ++ ((mailbox env j).unsent ++ (obj (event_of env fields j) ∷ []));
      unsent = [];
    }
record_event-delivers env fields j faithful s appending reading up =
    let e = event_of env fields j in
    elim (faithful.appends j (env.dumps e ++ (10 ∷ []))) [
      | inl done ↦
          let f =
            flush_unsent-Flushed env e faithful (appended env e faithful j e)
              (appended-IsSound env e faithful j e s) in
          rw (record_event-ok env e faithful fields j done) (
            mailbox-eq
              (f.posts
                ∙ ap (λ k. j.posted ++ k)
                    (sym (append_nil f.sent)
                      ∙ ap (λ k. f.sent ++ k) (sym (f.live up reading))
                      ∙ sym f.splits
                      ∙ mailbox-appended env e faithful j s))
              (f.live up reading))
      | inr (x, held, failed, same) ↦
          absurd (cc (appending j (env.dumps e ++ (10 ∷ [])), ap (λ p. p.0) failed))
    ]
