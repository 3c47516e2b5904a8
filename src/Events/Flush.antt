-- ===== src/Events/Flush.antt =====
-- What one flush of the journal does (`flush_unsent` of unoq_ota/events.py), in terms of a queue.
use unoq_ota.Prelude.{
  ℕ, pos, ◌+◌, ◌≤◌, ◌≡◌, refl, ap, sym, ◌∙◌, ◌⊎◌, inl, inr, String, true, Option, none, some, List,
  [], ◌∷◌, ◌++◌, length, drop, arith, append_nil, append_assoc, drop-drop, length-drop,
  Option-cases,
}
use unoq_ota.Outcome.{ok, raised, Raised, Outcome-cases}
use unoq_ota.Python.{Value, obj, Fields}
use unoq_ota.Artifact.{Bytes}
use unoq_ota.Events.{
  Journal, Env, complete_lines, contents_of, if_within, has_url, read_offset, natural, write_offset,
  post, send_line, send_lines, flush_unsent,
}
use unoq_ota.Events.Lines.{ends_line, IsRest, complete_lines-IsRest}

-- A report address is set; the JSON of the event is undone by its parser and has no newline; the text of a
-- number is undone by `int`; the file system appends all or nothing, reads back what is there or raises, and writes the
-- offset.
pub record IsFaithful (env : Env) (event : Fields) : Type 0 where
  pub reports : has_url env.report_url ≡ true
  pub parses : env.parse (env.dumps event) ≡ some (obj event)
  pub one_line : complete_lines (env.dumps event) ≡ []
  pub numbers : (n : ℕ) → env.int_of (env.str_of n) ≡ some (pos n)
  pub appends :
      (j : Journal) (b : Bytes)
      → (env.append j b ≡ (ok tt, some (contents_of j.contents ++ b)))
        ⊎ ((e : Raised) × (held : Option Bytes) × (env.append j b ≡ (raised e, held))
            × (contents_of held ≡ contents_of j.contents))
  pub reads :
      (j : Journal)
      → (env.read j ≡ ok (contents_of j.contents)) ⊎ ((e : Raised) × (env.read j ≡ raised e))
  pub writes : (j : Journal) (s : String) → env.write_offset j s ≡ (ok tt, some s)

abbrev pub prepend : Option Value → List Value → List Value
prepend none l = l
prepend (some v) l = v ∷ l

-- What is posted for the lines.
abbrev pub events_of : Env → List Bytes → List Value
events_of env [] = []
events_of env (l ∷ ls) = prepend (env.parse l) (events_of env ls)

abbrev pub data_of : Journal → Bytes
data_of j = contents_of j.contents

abbrev pub offset_of : Env → Journal → ℕ
offset_of env j = read_offset env j.offset

-- The offset is within the file, and behind it stand whole lines.
pub record IsSound (env : Env) (j : Journal) : Type 0 where
  pub within : offset_of env j ≤ length (data_of j)
  pub whole : ends_line (drop (offset_of env j) (data_of j)) ≡ true

-- The abstract journal: what the server has, and what it is yet to get.
pub record Mailbox : Type 0 where
  pub posted : List Value
  pub unsent : List Value

abbrev pub mailbox_of : List Value → List Value → Mailbox
mailbox_of p u = record { posted = p; unsent = u }

abbrev pub mailbox : Env → Journal → Mailbox
mailbox env j = record {
  posted = j.posted;
  unsent = events_of env (complete_lines (drop (offset_of env j) (data_of j)));
}

pub mailbox-eq : {p q u v : List Value} → p ≡ q → u ≡ v → mailbox_of p u ≡ mailbox_of q v
mailbox-eq h k = rw (h, k) refl

module _ (env : Env) (event : Fields) (faithful : IsFaithful env event) where
  -- What the loop of `flush_unsent` does, from `j` with `rest` unread and `lines` in it, to `j'`.
  record Progress (rest : Bytes) (lines : List Bytes) (j j' : Journal) : Type 0 where
    passed : ℕ
    fits : passed ≤ length rest
    whole : ends_line (drop passed rest) ≡ true
    sent : List Value
    posts : j'.posted ≡ j.posted ++ sent
    keeps : j'.contents ≡ j.contents
    moves : offset_of env j' ≡ offset_of env j + passed
    splits : events_of env lines ≡ sent ++ events_of env (complete_lines (drop passed rest))
    live :
        ((i : Journal) (v : Value) → env.post i v ≡ ok tt)
        → events_of env (complete_lines (drop passed rest)) ≡ []

  Progress-empty :
      (rest : Bytes) (lines : List Bytes) (j : Journal)
      → ends_line rest ≡ true
      → complete_lines rest ≡ lines
      → (((i : Journal) (v : Value) → env.post i v ≡ ok tt) → events_of env lines ≡ [])
      → Progress rest lines j j
  Progress-empty rest lines j ends h live = record {
    passed = 0;
    fits = omega arith;
    whole = ends;
    sent = [];
    posts = sym (append_nil j.posted);
    keeps = refl;
    moves = omega arith;
    splits = ap (events_of env) (sym h);
    live = λ up. ap (events_of env) h ∙ live up;
  }

  -- Once the line is dealt with, the journal holds the line's end as its offset and all else as before,
  -- or posting has failed and nothing has changed.
  send_line-cases :
      (o : Option Value) (n : ℕ) (j : Journal)
      → (send_line env o n j ≡ (
        ok tt,
        record {
          contents = j.contents;
          offset = some (env.str_of n);
          posted = j.posted ++ prepend o [];
        },
      ))
        ⊎ ((e : Raised) × (v : Value) × (send_line env o n j ≡ (raised e, j))
            × (env.post j v ≡ raised e))
  unfolding send_line write_offset post
  send_line-cases none n j = inl (rw (faithful.writes j (env.str_of n), append_nil j.posted) refl)
  send_line-cases (some v) n j = elim (Outcome-cases (env.post j v)) [
    | inl (tt, up) ↦
        inl (
          rw (up, faithful.writes (record j { posted = j.posted ++ (v ∷ []) }) (env.str_of n)) refl)
    | inr (e, down) ↦ inr (e, v, rw down refl, down)
  ]

  events_of-cons :
      (l : Bytes) (ls : List Bytes)
      → events_of env (l ∷ ls) ≡ prepend (env.parse l) [] ++ events_of env ls
  events_of-cons l ls = elim (Option-cases (env.parse l)) [
    | inl e ↦ rw e refl
    | inr (v, e) ↦ rw e refl
  ]

  -- The journal after a line that ends at `n`.
  abbrev after_line : Option Value → ℕ → Journal → Journal
  after_line o n j = record {
    contents = j.contents;
    offset = some (env.str_of n);
    posted = j.posted ++ prepend o [];
  }

  offset_of-after_line :
      (o : Option Value) (n : ℕ) (j : Journal) → offset_of env (after_line o n j) ≡ n
  unfolding read_offset
  offset_of-after_line o n j = ap natural (faithful.numbers n)

  further :
      (l : Bytes) (ls : List Bytes) (rest : Bytes) (j j' : Journal) (end_of_line : ℕ)
      → end_of_line ≡ offset_of env j + (length l + 1)
      → IsRest rest l ls
      → Progress (drop (length l + 1) rest) ls (after_line (env.parse l) end_of_line j) j'
      → Progress rest (l ∷ ls) j j'
  further l ls rest j j' end_of_line at r p =
      let n : ℕ = length l + 1 in
      let behind : drop (n + p.passed) rest ≡ drop p.passed (drop n rest) =
        drop-drop n p.passed rest in
      let size = length-drop n rest r.fits in
      record {
        passed = n + p.passed;
        fits = omega (arith, p.fits, size);
        whole = rw behind p.whole;
        sent = prepend (env.parse l) [] ++ p.sent;
        posts = p.posts ∙ append_assoc j.posted (prepend (env.parse l) []) p.sent;
        keeps = p.keeps;
        moves = omega (arith, p.moves, at, offset_of-after_line (env.parse l) end_of_line j);
        splits =
            events_of-cons l ls
            ∙ ap (λ k. prepend (env.parse l) [] ++ k) p.splits
            ∙ sym (
                append_assoc (prepend (env.parse l) []) p.sent
                  (events_of env (complete_lines (drop p.passed (drop n rest)))))
            ∙ ap (λ k. (prepend (env.parse l) [] ++ p.sent) ++ events_of env (complete_lines k))
                (sym behind);
        live = λ up. ap (λ k. events_of env (complete_lines k)) behind ∙ p.live up;
      }

  send_lines-Progress :
      (lines : List Bytes) (rest : Bytes) (j : Journal) (offset : ℕ)
      → offset_of env j ≡ offset
      → complete_lines rest ≡ lines
      → ends_line rest ≡ true
      → Progress rest lines j (send_lines env offset lines j).1
  unfolding send_lines
  send_lines-Progress [] rest j offset at h ends = Progress-empty rest [] j ends h (λ up. refl)
  send_lines-Progress (l ∷ ls) rest j offset at h ends =
      let n : ℕ = offset + (length l + 1) in
      elim (send_line-cases (env.parse l) n j) [
        | inl e ↦
            let r = complete_lines-IsRest rest l ls h ends in
            let next : Journal = after_line (env.parse l) n j in
            let p =
              send_lines-Progress ls (drop (length l + 1) rest) next n
                (offset_of-after_line (env.parse l) n j) r.left r.ends in
            rw e (further l ls rest j (send_lines env n ls next).1 n (omega (arith, at)) r p)
        | inr (e, v, eq, down) ↦
            rw eq (Progress-empty rest (l ∷ ls) j ends h (λ up. absurd (cc (up j v, down))))
      ]

  -- What `flush_unsent` does to a sound journal.
  pub record Flushed (j j' : Journal) : Type 0 where
    pub sound : IsSound env j'
    pub sent : List Value
    pub posts : j'.posted ≡ j.posted ++ sent
    pub splits : (mailbox env j).unsent ≡ sent ++ (mailbox env j').unsent
    pub live :
        ((i : Journal) (v : Value) → env.post i v ≡ ok tt)
        → ((i : Journal) → env.read i ≡ ok (data_of i))
        → (mailbox env j').unsent ≡ []

  flushed :
      (j j' : Journal)
      → IsSound env j
      → Progress
          (drop (offset_of env j) (data_of j))
          (complete_lines (drop (offset_of env j) (data_of j)))
          j
          j'
      → Flushed j j'
  flushed j j' s p =
      let behind : drop (offset_of env j') (data_of j')
          ≡ drop p.passed (drop (offset_of env j) (data_of j)) =
        ap (λ k. drop k (data_of j')) p.moves
        ∙ ap (λ k. drop (offset_of env j + p.passed) (contents_of k)) p.keeps
        ∙ drop-drop (offset_of env j) p.passed (data_of j) in
      let size = length-drop (offset_of env j) (data_of j) s.within in
      let same : length (data_of j') ≡ length (data_of j) =
        ap (λ k. length (contents_of k)) p.keeps in
      record {
        sound = record {
          within = omega (arith, p.moves, p.fits, size, same);
          whole = ap ends_line behind ∙ p.whole;
        };
        sent = p.sent;
        posts = p.posts;
        splits = p.splits ∙ ap (λ k. p.sent ++ events_of env (complete_lines k)) (sym behind);
        live = λ up reading. ap (λ k. events_of env (complete_lines k)) behind ∙ p.live up;
      }

  if_within-IsSound : (size n : ℕ) → n ≤ size → if_within size n ≡ n
  if_within-IsSound size n h = ground (arith, h)

  pub flush_unsent-Flushed : (j : Journal) → IsSound env j → Flushed j (flush_unsent env j).1
  unfolding flush_unsent
  flush_unsent-Flushed j s = elim (faithful.reads j) [
    | inl e ↦
        rw (faithful.reports, e, if_within-IsSound (length (data_of j)) (offset_of env j) s.within)
          (flushed j _ s (
            send_lines-Progress _ (drop (offset_of env j) (data_of j)) j (offset_of env j) refl refl
              s.whole))
    | inr (x, e) ↦
        rw (faithful.reports, e)
          (record {
            sound = s;
            sent = [];
            posts = sym (append_nil j.posted);
            splits = refl;
            live = λ up reading. absurd (cc (reading j, e));
          })
  ]
