-- ===== src/Loader/Changes/Served.antt =====
-- What the loader of pkg/config/loader.go serves after changes in any order.
use compkg.Common.{
  ℕ, zero, suc, ◌-◌, ◌<◌, ◌≤◌, length, length-append, ltb, leb, ◌==◌, if◌then◌else◌, ◌++◌, ap, sym,
  ◌∙◌, Bool-cases, ◌≡◌, refl, inl, inr, true, Option, none, some, Option-cases, List, [], ◌∷◌,
  arith,
}
use mathlib.Core.Path.{subst}
use compkg.Common.Text.{Text}
use compkg.Encrypt.Settings.{Fields}
use compkg.Loader.Changes.{
  Raws, put_raw, Source, Loader, Change, arrive, finish, copy_at, without_copy, served_or, rebuild,
  bootstrap, or_nothing, on_remote_change, run_changes,
}

rebuild-is_valid :
    (source : Source) (local_file : Option Fields) (raws : Raws) (final : Fields)
    → rebuild source local_file raws ≡ some final
    → source.is_valid final ≡ true
unfolding rebuild
rebuild-is_valid source none raws final h = cc h
rebuild-is_valid source (some settings) raws final h = ground arith

on_remote_change-is_valid :
    (source : Source) (change : Change) (l : Loader)
    → source.is_valid l.served ≡ true
    → source.is_valid (on_remote_change source change l).served ≡ true
unfolding on_remote_change
on_remote_change-is_valid source (arrive data_id raw) l h = h
on_remote_change-is_valid source (finish n local_file ranged) l h =
    elim (Option-cases (copy_at n l.copies)) [
      | inl e ↦ rw (on_remote_change, e) h
      | inr (raws, e) ↦ elim (Option-cases (rebuild source local_file (ranged raws))) [
        | inl r ↦ rw (on_remote_change, e, r) h
        | inr (final, r) ↦
            rw (on_remote_change, e, r) (rebuild-is_valid source local_file (ranged raws) final r)
      ]
    ]

run_changes-is_valid :
    (source : Source) (changes : List Change) (l : Loader)
    → source.is_valid l.served ≡ true
    → source.is_valid (run_changes source changes l).served ≡ true
unfolding run_changes
run_changes-is_valid source [] l h = h
run_changes-is_valid source (change ∷ changes) l h =
    run_changes-is_valid source changes (on_remote_change source change l)
      (on_remote_change-is_valid source change l h)

bootstrap-rebuild :
    (source : Source) (local_file : Option Fields) (l : Loader)
    → bootstrap source local_file ≡ some l
    → rebuild source local_file (or_nothing source.fetched) ≡ some l.served
unfolding bootstrap
bootstrap-rebuild source local_file l h = ground arith

-- What is served has passed the schema: after Bootstrap, and after changes that arrive and finish in any
-- order, with a local file that may be another one or unreadable each time.
pub bootstrap-is_valid :
    (source : Source) (local_file : Option Fields) (changes : List Change) (l : Loader)
    → bootstrap source local_file ≡ some l
    → source.is_valid (run_changes source changes l).served ≡ true
bootstrap-is_valid source local_file changes l h = run_changes-is_valid source changes l (
    rebuild-is_valid source local_file (or_nothing source.fetched) l.served
      (bootstrap-rebuild source local_file l h))

-- Where a pending copy is after changes: copies before it that are stored make room.
unfoldable pub place_after : List Change → ℕ → ℕ → Option ℕ
place_after [] pending n = some n
place_after (arrive id raw ∷ changes) pending n = place_after changes (suc pending) n
place_after (finish m local_file ranged ∷ changes) pending n =
    let earlier = place_after changes (pending - 1) (n - 1) in
    let later = place_after changes (pending - 1) n in
    let same = place_after changes pending n in
    if leb pending m then same else if m == n then none else if ltb m n then earlier else later

-- The texts after changes: those that arrive are put in, and a finish puts in none.
unfoldable pub texts_after : List Change → Raws → Raws
texts_after [] raws = raws
texts_after (arrive id raw ∷ changes) raws = texts_after changes (put_raw id raw raws)
texts_after (finish m local_file ranged ∷ changes) raws = texts_after changes raws

copy_at-append :
    (n : ℕ) (copies more : List Raws) {raws : Raws}
    → copy_at n copies ≡ some raws
    → copy_at n (copies ++ more) ≡ some raws
copy_at-append n [] more h = cc h
copy_at-append zero (c ∷ copies) more h = h
copy_at-append (suc n) (c ∷ copies) more h = copy_at-append n copies more h

copy_at-new :
    (copies : List Raws) (raws : Raws) → copy_at (length copies) (copies ++ (raws ∷ [])) ≡ some raws
copy_at-new [] raws = refl
copy_at-new (c ∷ copies) raws = copy_at-new copies raws

copy_at-lt :
    (n : ℕ) (copies : List Raws) {raws : Raws} → copy_at n copies ≡ some raws → n < length copies
copy_at-lt n [] h = cc h
copy_at-lt zero (c ∷ copies) h = omega arith
copy_at-lt (suc n) (c ∷ copies) h = omega (arith, copy_at-lt n copies h)

copy_at-out : (m : ℕ) (copies : List Raws) → length copies ≤ m → copy_at m copies ≡ none
copy_at-out m [] h = refl
copy_at-out zero (c ∷ copies) h = absurd (omega arith)
copy_at-out (suc m) (c ∷ copies) h = copy_at-out m copies (omega arith)

copy_at-in :
    (m : ℕ) (copies : List Raws)
    → m < length copies
    → (raws : Raws) × (copy_at m copies ≡ some raws)
copy_at-in m [] h = absurd (omega arith)
copy_at-in zero (c ∷ copies) h = (c, refl)
copy_at-in (suc m) (c ∷ copies) h = copy_at-in m copies (omega arith)

length-without_copy :
    (m : ℕ) (copies : List Raws)
    → m < length copies
    → length (without_copy m copies) ≡ length copies - 1
length-without_copy m [] h = absurd (omega arith)
length-without_copy zero (c ∷ copies) h = omega arith
length-without_copy (suc m) (c ∷ copies) h =
    omega (arith, length-without_copy m copies (omega arith))

copy_at-later :
    (m n : ℕ) (copies : List Raws)
    → m < n
    → copy_at (n - 1) (without_copy m copies) ≡ copy_at n copies
copy_at-later m n [] h = refl
copy_at-later m zero (c ∷ copies) h = absurd (omega arith)
copy_at-later zero (suc n) (c ∷ copies) h = let e : suc n - 1 ≡ n = omega arith in rw e refl
copy_at-later (suc m) (suc zero) (c ∷ copies) h = absurd (omega arith)
copy_at-later (suc m) (suc (suc n)) (c ∷ copies) h =
    let e : suc (suc n) - 1 ≡ suc n = omega arith in
    let f : suc n - 1 ≡ n = omega arith in
    rw e (
      ap (λ k. copy_at k (without_copy m copies)) (sym f)
      ∙ copy_at-later m (suc n) copies (omega arith))

copy_at-earlier :
    (m n : ℕ) (copies : List Raws) → n < m → copy_at n (without_copy m copies) ≡ copy_at n copies
copy_at-earlier m n [] h = refl
copy_at-earlier zero n (c ∷ copies) h = absurd (omega arith)
copy_at-earlier (suc m) zero (c ∷ copies) h = refl
copy_at-earlier (suc m) (suc n) (c ∷ copies) h = copy_at-earlier m n copies (omega arith)

remote_raw-run_changes :
    (source : Source) (changes : List Change) (l : Loader)
    → (run_changes source changes l).remote_raw ≡ texts_after changes l.remote_raw
unfolding run_changes on_remote_change texts_after
remote_raw-run_changes source [] l = refl
remote_raw-run_changes source (arrive id raw ∷ changes) l =
    remote_raw-run_changes source changes (on_remote_change source (arrive id raw) l)
remote_raw-run_changes source (finish m local_file ranged ∷ changes) l =
    let k = on_remote_change source (finish m local_file ranged) l in
    let same : k.remote_raw ≡ l.remote_raw = ground arith in
    remote_raw-run_changes source changes k ∙ ap (texts_after changes) same

-- What a finish does to the copies.
copies-missing :
    (source : Source) (m : ℕ) (local_file : Option Fields) (ranged : Raws → Raws) (l : Loader)
    → length l.copies ≤ m
    → on_remote_change source (finish m local_file ranged) l ≡ l
unfolding on_remote_change
copies-missing source m local_file ranged l h = rw (on_remote_change, copy_at-out m l.copies h) refl

copies-finish :
    (source : Source) (m : ℕ) (local_file : Option Fields) (ranged : Raws → Raws) (l : Loader)
    → m < length l.copies
    → (on_remote_change source (finish m local_file ranged) l).copies ≡ without_copy m l.copies
unfolding on_remote_change
copies-finish source m local_file ranged l h =
    let (raws, there) = copy_at-in m l.copies h in rw (on_remote_change, there) refl

copy_at-run_changes :
    (source : Source) (changes : List Change) (l : Loader) (n k : ℕ) (raws : Raws)
    → copy_at n l.copies ≡ some raws
    → place_after changes (length l.copies) n ≡ some k
    → copy_at k (run_changes source changes l).copies ≡ some raws
unfolding run_changes place_after
copy_at-run_changes source [] l n k raws there place =
    let same : n ≡ k = cc place in subst (λ i. copy_at i l.copies ≡ some raws) same there
copy_at-run_changes source (arrive id raw ∷ changes) l n k raws there place =
    let next = on_remote_change source (arrive id raw) l in
    let grown : length next.copies ≡ suc (length l.copies) =
      unfold on_remote_change in
      omega (arith, length-append l.copies (put_raw id raw l.remote_raw ∷ [])) in
    copy_at-run_changes source changes next n k raws
      (unfold on_remote_change in
        copy_at-append n l.copies (put_raw id raw l.remote_raw ∷ []) there)
      (rw grown place)
copy_at-run_changes source (finish m local_file ranged ∷ changes) l n k raws there place =
    let next = on_remote_change source (finish m local_file ranged) l in
    elim (Bool-cases (leb (length l.copies) m)) [
      | inl out ↦
          let stay : next ≡ l = copies-missing source m local_file ranged l (ground arith) in
          subst (λ x. copy_at k (run_changes source changes x).copies ≡ some raws) (sym stay)
            (copy_at-run_changes source changes l n k raws there (rw (out, place_after) at place))
      | inr within ↦
          let less : m < length l.copies = ground arith in
          let after = copies-finish source m local_file ranged l less in
          let size : length next.copies ≡ length l.copies - 1 =
            ap length after ∙ length-without_copy m l.copies less in
          elim (Bool-cases (m == n)) [
            | inl same ↦ cc (rw (within, same, place_after) at place)
            | inr other ↦ elim (Bool-cases (ltb m n)) [
              | inl before ↦
                  copy_at-run_changes source changes next (n - 1) k raws
                    (ap (copy_at (n - 1)) after ∙ copy_at-later m n l.copies (ground arith) ∙ there)
                    (rw size (rw (within, other, before, place_after) at place))
              | inr behind ↦
                  copy_at-run_changes source changes next n k raws
                    (ap (copy_at n) after ∙ copy_at-earlier m n l.copies (ground arith) ∙ there)
                    (rw size (rw (within, other, behind, place_after) at place))
            ]
          ]
    ]

-- A change that finishes serves, if they can be, the settings of the texts that were there when it arrived, with
-- its own one, in whatever order it ranges over them and whatever the local file is then, and
-- whatever changes have arrived or finished since. The texts that have arrived since are kept, but are not in
-- these settings: of changes that overlap, it is the last to finish that decides, not the last to arrive.
pub run_changes-rebuild :
    (source : Source) (l : Loader) (id raw : Text) (changes : List Change)
    (local_file : Option Fields) (ranged : Raws → Raws) (n : ℕ)
    → place_after changes (suc (length l.copies)) (length l.copies) ≡ some n
    → let k = run_changes source (arrive id raw ∷ changes) l in
      ((on_remote_change source (finish n local_file ranged) k).served
        ≡ served_or k.served (rebuild source local_file (ranged (put_raw id raw l.remote_raw))))
      × (k.remote_raw ≡ texts_after changes (put_raw id raw l.remote_raw))
unfolding run_changes on_remote_change
run_changes-rebuild source l id raw changes local_file ranged n place =
    let raws = put_raw id raw l.remote_raw in
    let start : Loader = record {
      remote_raw = raws;
      served = l.served;
      copies = l.copies ++ (raws ∷ []);
    } in
    let size : length start.copies ≡ suc (length l.copies) =
      omega (arith, length-append l.copies (raws ∷ [])) in
    let there =
      copy_at-run_changes source changes start (length l.copies) n raws (copy_at-new l.copies raws)
        (rw size place) in
    (rw (there, on_remote_change) refl, remote_raw-run_changes source changes start)
