-- ===== src/Archive/Read/Memo.antt =====
-- The memo of declared sizes never changes an answer.
use faster_file_copy.Prelude.{
  ℕ, ◌≡◌, refl, sym, ap, ◌∙◌, inl, inr, Option, none, some, List, [], ◌∷◌, ◌==◌, All, arith,
  Bool-cases,
}
use faster_file_copy.Archive.State.{FileSystem, MappedArchive, has_embedded_file_names}
use faster_file_copy.Archive.Read.{
  read_at, find_size, emplace_size, nonzero, embedded_name_length, resolve, remember,
  get_declared_decompressed_size,
}

-- What the code finds for an offset with no memo, 0 for nothing.
abbrev pub declared : FileSystem → MappedArchive → ℕ → ℕ
declared fs a start = elim (embedded_name_length fs a start) [
  | none ↦ 0
  | some name_length ↦ resolve fs a start name_length
]

-- Every memoized size is what the code finds without the memo.
abbrev pub Coherent : FileSystem → MappedArchive → Type 0
Coherent fs a = All (λ (r : ℕ × ℕ). r.1 ≡ declared fs a r.0) a.declared_sizes

find_size-All :
    (P : ℕ × ℕ → Type 0) (m : List (ℕ × ℕ)) (k v : ℕ) → All P m → find_size m k ≡ some v → P (k, v)
unfolding find_size
find_size-All P [] k v h e = cc
find_size-All P ((j, w) ∷ m) k v h e = elim (Bool-cases (j == k)) [
  | inl same ↦
      let here : j ≡ k = ground arith in
      let there : w ≡ v = ground arith in rw (← here, ← there) h.0
  | inr other ↦ find_size-All P m k v h.1 (ground arith)
]

find-emplace :
    (m : List (ℕ × ℕ)) (k v : ℕ)
    → find_size m k ≡ none
    → (emplace_size m k v ≡ (k, v) ∷ m) × (find_size (emplace_size m k v) k ≡ some v)
unfolding emplace_size
find-emplace m k v h = (rw h, rw h (ground arith))

-- The declared size does not depend on the memo.
pub declared-memo :
    (fs : FileSystem) (a : MappedArchive) (m : List (ℕ × ℕ)) (start : ℕ)
    → declared fs (record a { declared_sizes = m }) start ≡ declared fs a start
unfolding embedded_name_length read_at resolve has_embedded_file_names
declared-memo fs a m start = refl

Coherent-memo :
    (fs : FileSystem) (a : MappedArchive) (m n : List (ℕ × ℕ))
    → All (λ (r : ℕ × ℕ). r.1 ≡ declared fs a r.0) n
    → All (λ (r : ℕ × ℕ). r.1 ≡ declared fs (record a { declared_sizes = m }) r.0) n
Coherent-memo fs a m [] h = tt
Coherent-memo fs a m (r ∷ n) h = (h.0 ∙ sym (declared-memo fs a m r.0), Coherent-memo fs a m n h.1)

record Answers (fs : FileSystem) (a : MappedArchive) (start : ℕ) (r : Option ℕ × MappedArchive)
    : Type 0 where
  answer : r.0 ≡ nonzero (declared fs a start)
  coherent : Coherent fs r.1
  only_memo : r.1 ≡ record a { declared_sizes = r.1.declared_sizes }

declared_of :
    (fs : FileSystem) (a : MappedArchive) (start : ℕ) (o : Option ℕ)
    → embedded_name_length fs a start ≡ o
    → declared fs a start ≡ elim o [ none ↦ 0 | some n ↦ resolve fs a start n ]
declared_of fs a start o e = rw (e, declared)

stored :
    (fs : FileSystem) (a : MappedArchive) (start v : ℕ)
    → v ≡ declared fs a start
    → Coherent fs a
    → find_size a.declared_sizes start ≡ none
    → Coherent fs (record a { declared_sizes = emplace_size a.declared_sizes start v })
stored fs a start v e c h =
    Coherent-memo fs a (emplace_size a.declared_sizes start v) _
      (rw ((find-emplace a.declared_sizes start v h).0) (e, c))

remember-Answers :
    (fs : FileSystem) (a : MappedArchive) (start : ℕ) (o : Option ℕ)
    → embedded_name_length fs a start ≡ o
    → Coherent fs a
    → find_size a.declared_sizes start ≡ none
    → Answers fs a start (remember fs a start o)
unfolding remember
remember-Answers fs a start none e c h =
    let zero' = declared_of fs a start none e in
    record {
      answer = rw zero' (unfold remember in refl);
      coherent = stored fs a start 0 (sym zero') c h;
      only_memo = refl;
    }
remember-Answers fs a start (some n) e c h =
    let is = declared_of fs a start (some n) e in
    record {
      answer =
          rw (is)
            (rw ((find-emplace a.declared_sizes start (resolve fs a start n) h).1, remember) refl);
      coherent = stored fs a start (resolve fs a start n) (sym is) c h;
      only_memo = refl;
    }

lookup-Answers :
    (fs : FileSystem) (a : MappedArchive) (start : ℕ) (o : Option ℕ)
    → find_size a.declared_sizes start ≡ o
    → Coherent fs a
    → Answers fs a start (elim o [
      | some v ↦ (nonzero v, a)
      | none ↦ remember fs a start (embedded_name_length fs a start)
    ])
lookup-Answers fs a start none e c = remember-Answers fs a start _ refl c e
lookup-Answers fs a start (some v) e c = record {
  answer = ap nonzero (find_size-All (λ r. r.1 ≡ declared fs a r.0) a.declared_sizes start v c e);
  coherent = c;
  only_memo = refl;
}

-- With a memo that holds what the code finds without it, the answer is the one without the memo; the
-- memo keeps that property, and nothing else of the archive changes.
pub get_declared-Answers :
    (fs : FileSystem) (a : MappedArchive) (start : ℕ)
    → Coherent fs a
    → let r = get_declared_decompressed_size fs a start in
      (r.0 ≡ nonzero (declared fs a start))
      × Coherent fs r.1
      × (r.1 ≡ record a { declared_sizes = r.1.declared_sizes })
unfolding get_declared_decompressed_size
get_declared-Answers fs a start c =
    let r = lookup-Answers fs a start _ refl c in (r.answer, r.coherent, r.only_memo)
