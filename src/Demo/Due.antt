-- ===== src/Demo/Due.antt =====
-- The SELECT of the small world: its WHERE and its LIMIT.
use cliros.Prelude.{
  ℕ, zero, suc, ◌≤◌, ◌<◌, String, ◌≡◌, refl, sym, ◌∙◌, ap, subst, inl, inr, List, [], ◌∷◌, map,
  take, Among, Among-map, Among-map_back, IsDistinct, length, ltb, Bool-cases, str_eq_iff, arith,
}
use cliros.Prelude.Int.{pos_part}
use cliros.Effect.{Result, ok, err}
use cliros.Database.{Columns}
use cliros.Outbox.{saga_text, saga_type_of}
use cliros.Outbox.Writer.{Row}
use cliros.Outbox.Reader.{Reader, positive_or, default_batch_size}
use cliros.Outbox.Scan.{HasRoom, RespectsLimit, readable, new_reader-HasRoom}
use cliros.Outbox.Marking.{key_of}
use cliros.Outbox.Attempts.{SelectsDue, most}
use cliros.Store.{OutboxRow, row_key}
use cliros.Demo.{Json, DemoWorld, columns_of, due_rows, demo}
use cliros.Demo.Queue.{demo_queue}
use cliros.Demo.Saga.{reader}

saga_text-saga_type_of : (s : String) → saga_text (saga_type_of s) ≡ s
unfolding saga_text saga_type_of
saga_text-saga_type_of s = ground (arith, str_eq_iff s "execute", str_eq_iff s "compensate")

length-take_le {ℓ} : {A : Type ℓ} (n : ℕ) (xs : List A) → length (take n xs) ≤ n
length-take_le zero xs = omega arith
length-take_le (suc n) [] = omega arith
length-take_le (suc n) (x ∷ xs) = omega (arith, length-take_le n xs)

due_rows-below :
    (n : ℕ) (rows : List (OutboxRow String Json)) (row : OutboxRow String Json)
    → Among row (due_rows n rows)
    → Among row rows × (row.attempts_counter < n)
due_rows-below n [] row there = absurd there
due_rows-below n (first ∷ rows) row there = elim (Bool-cases (ltb first.attempts_counter n)) [
  | inl e ↦
      let kept : Among row (first ∷ due_rows n rows) = rw e at there in
      elim kept [
        | inl is ↦ (inl is, subst (λ r. r.attempts_counter < n) (sym is) (ground (arith, e)))
        | inr more ↦ let (at, below) = due_rows-below n rows row more in (inr at, below)
      ]
  | inr e ↦
      let left : Among row (due_rows n rows) = rw e at there in
      let (at, below) = due_rows-below n rows row left in (inr at, below)
]

due_rows-IsDistinct :
    (n : ℕ) (rows : List (OutboxRow String Json))
    → IsDistinct (map row_key rows)
    → IsDistinct (map row_key (due_rows n rows))
due_rows-IsDistinct n [] once = tt
due_rows-IsDistinct n (first ∷ rows) once = elim (Bool-cases (ltb first.attempts_counter n)) [
  | inl e ↦ rw e (
    λ there.
        let (row, at, same) = Among-map_back row_key (row_key first) (due_rows n rows) there in
        once.0 (
          subst (λ k. Among k (map row_key rows)) (sym same)
            (Among-map row_key row rows (due_rows-below n rows row at).0)),
    due_rows-IsDistinct n rows once.1,
  )
  | inr e ↦ rw e (due_rows-IsDistinct n rows once.1)
]

-- What the reader's buffer gets of the rows.
abbrev read_of : ℕ → List (OutboxRow String Json) → List (Row demo)
read_of limit rows = readable demo (take limit (map columns_of rows))

read_of-row :
    (limit : ℕ) (rows : List (OutboxRow String Json)) (m : Row demo)
    → Among m (read_of limit rows)
    → (row : OutboxRow String Json) × Among row rows × (row_key row ≡ key_of demo_queue m)
read_of-row zero rows m there = absurd there
read_of-row (suc limit) [] m there = absurd there
read_of-row (suc limit) (row ∷ rows) m (inl is) =
    (row, inl refl, rw (is, saga_text-saga_type_of row.saga_type) refl)
read_of-row (suc limit) (row ∷ rows) m (inr there) =
    let (found, at, same) = read_of-row limit rows m there in (found, inr at, same)

read_of-IsDistinct :
    (limit : ℕ) (rows : List (OutboxRow String Json))
    → IsDistinct (map row_key rows)
    → IsDistinct (map (key_of demo_queue) (read_of limit rows))
read_of-IsDistinct zero rows once = tt
read_of-IsDistinct (suc limit) [] once = tt
read_of-IsDistinct (suc limit) (row ∷ rows) once = (
  λ there.
      let k : String × String × String =
        (row.saga_id, row.topic, saga_text (saga_type_of row.saga_type)) in
      let (m, read, is) = Among-map_back (key_of demo_queue) k (read_of limit rows) there in
      let (found, at, same) = read_of-row limit rows m read in
      let one : row_key found ≡ row_key row =
        same
        ∙ sym is
        ∙ ap (λ s. (row.saga_id, row.topic, s)) (saga_text-saga_type_of row.saga_type) in
      once.0 (subst (λ x. Among x (map row_key rows)) one (Among-map row_key found rows at)),
  read_of-IsDistinct limit rows once.1,
)

pub demo-SelectsDue : (r : Reader demo) (w : DemoWorld) → SelectsDue demo_queue r tt w
demo-SelectsDue r w = record {
  below = λ m read.
      let rows = due_rows (most demo_queue r) w.main.outbox in
      let (row, at, same) = read_of-row _ rows m read in
      let (there, below) = due_rows-below (most demo_queue r) w.main.outbox row at in
      (row, there, same, below);
  once =
      λ keys. read_of-IsDistinct _ _ (due_rows-IsDistinct (most demo_queue r) w.main.outbox keys);
}

pub demo-RespectsLimit : (r : Reader demo) (w : DemoWorld) → RespectsLimit demo r tt w
demo-RespectsLimit r w rs last e =
    subst (λ xs. length xs ≤ limit)
      (ap
        (λ reply. elim reply as (λ _. List (Result (Columns String Json))) [
          | ok (xs, _) ↦ xs
          | err _ ↦ []
        ])
        e)
      (length-take_le limit (map columns_of (due_rows (most demo_queue r) w.main.outbox)))
  where
    limit : ℕ
    limit = pos_part (positive_or default_batch_size r.polling.batch_size)

pub reader-HasRoom : HasRoom demo reader
reader-HasRoom = new_reader-HasRoom demo _ _ _ _
