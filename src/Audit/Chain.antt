-- ===== src/Audit/Chain.antt =====
-- What `verify` decides, and that `append` keeps a log verified.
use sre_blackboard.Common.{
  ℕ, suc, ◌+◌, ◌≡◌, ◌≢◌, refl, sym, ap, ◌∙◌, String, true, false, some, List, [], ◌∷◌, ◌++◌, str_eq,
  eq_iff, or_else, length-append, length, arith, Bool-cases, inl, inr,
}
use sre_blackboard.Audit.Log.{
  Entry, AuditRow, Log, Verification, genesis, prev_hash_of, in_order, append, accepted,
  verify_rows, verify,
}

-- The hash that the row after `rs` has to name.
abbrev pub latest : String → List AuditRow → String
latest prev [] = prev
latest prev (r ∷ rs) = latest r.hash rs

differ : (s t : String) → str_eq s t ≡ false → s ≡ t → ⊥
differ s t h e = ground (arith, eq_iff s t)

pub latest_last :
    (prev : String) (rs : List AuditRow) (r : AuditRow) → latest prev (rs ++ r ∷ []) ≡ r.hash
latest_last prev [] r = refl
latest_last prev (x ∷ rs) r = latest_last x.hash rs r

or_else_left : (s d : String) → s ≢ "" → or_else s d ≡ s
or_else_left s d h = elim (Bool-cases (str_eq s "")) [
  | inl e ↦ absurd (h ((eq_iff s "").0 e))
  | inr e ↦ rw e refl
]

length-in_order : (rs : List AuditRow) → length (in_order rs) ≡ length rs
unfolding in_order
length-in_order [] = refl
length-in_order (r ∷ rs) = omega (arith, length-in_order rs, length-append (in_order rs) (r ∷ []))

module _ (digest : String → Entry → String) where
  -- A row that follows a row with the hash `prev`.
  abbrev pub Links : String → AuditRow → Type 0
  Links prev r = (r.prev_hash ≡ prev) × (r.hash ≡ digest prev r.entry)

  -- Rows in order, the first of which follows `prev`.
  abbrev pub Chain : String → List AuditRow → Type 0
  Chain prev [] = Unit
  Chain prev (r ∷ rs) = Links prev r × Chain r.hash rs

  -- What a verification of the rows after `before` intact ones reports: all are intact, or an
  -- intact part is followed by a row that does not link to it, and which the report names.
  pub data Reports (prev : String) (before : ℕ) (rs : List AuditRow) : Verification → Type 0 where
    intact : (n : ℕ) → n ≡ before + length rs → Chain prev rs → Reports prev before rs (accepted n)
    broken :
        (n : ℕ) (good : List AuditRow) (bad : AuditRow) (rest : List AuditRow) (why : String)
        → n ≡ before + length good
        → good ++ bad ∷ rest ≡ rs
        → Chain prev good
        → (Links (latest prev good) bad → ⊥)
        → Reports prev before rs
            (record { ok = false; checked = n; first_bad_seq = some bad.seq; reason = why })

  Reports-cons :
      (prev : String) (before : ℕ) (r : AuditRow) (rs : List AuditRow) (v : Verification)
      → Links prev r
      → Reports r.hash (suc before) rs v
      → Reports prev before (r ∷ rs) v
  Reports-cons prev before r rs _ l (intact n e c) = intact n (omega (arith, e)) (l, c)
  Reports-cons prev before r rs _ l (broken n good bad rest why e same c wrong) =
      broken n (r ∷ good) bad rest why (omega (arith, e)) (ap (λ xs. r ∷ xs) same) (l, c) wrong

  verify_rows-Reports :
      (prev : String) (before : ℕ) (rs : List AuditRow)
      → Reports prev before rs (verify_rows digest prev before rs)
  unfolding verify_rows
  verify_rows-Reports prev before [] = intact before (omega arith) tt
  verify_rows-Reports prev before (r ∷ rs) = elim (Bool-cases (str_eq r.prev_hash prev)) [
    | inr e ↦
        rw (e, verify_rows)
          (broken before [] r rs "prev_hash does not match the previous row" (omega arith) refl tt
            (λ l. differ r.prev_hash prev e l.0))
    | inl e ↦ elim (Bool-cases (str_eq r.hash (digest prev r.entry))) [
      | inr f ↦
          rw (e, f, verify_rows)
            (broken before [] r rs "row content does not match its hash" (omega arith) refl tt
              (λ l. differ r.hash (digest prev r.entry) f l.1))
      | inl f ↦
          rw (e, f, verify_rows)
            (Reports-cons prev before r rs _
              ((eq_iff r.prev_hash prev).0 e, (eq_iff r.hash (digest prev r.entry)).0 f)
              (verify_rows-Reports r.hash (suc before) rs))
    ]
  ]

  -- Verification is exact: it says that the log is intact, with the number of its rows, only if
  -- each row in order names the hash before it and has the hash of its own content; else the rows
  -- that it counts are intact so, and the row that it names is the first that is not.
  pub verify-Reports : (log : Log) → Reports genesis 0 (in_order log.rows) (verify digest log)
  unfolding verify
  verify-Reports log = verify_rows-Reports genesis 0 (in_order log.rows)

  verify_rows-Chain :
      (prev : String) (n : ℕ) (rs : List AuditRow)
      → Chain prev rs
      → verify_rows digest prev n rs ≡ accepted (n + length rs)
  unfolding verify_rows
  verify_rows-Chain prev n [] c = ap accepted (omega arith)
  verify_rows-Chain prev n (r ∷ rs) (l, c) =
      let same : str_eq r.prev_hash prev ≡ true = (eq_iff r.prev_hash prev).1 l.0 in
      let sound : str_eq r.hash (digest prev r.entry) ≡ true =
        (eq_iff r.hash (digest prev r.entry)).1 l.1 in
      let rest = verify_rows-Chain r.hash (suc n) rs c in
      let moved : suc n + length rs ≡ n + suc (length rs) = omega arith in
      rw (same, sound) (rest ∙ ap accepted moved)

  Reports-Chain :
      {prev : String} {n : ℕ} {rs : List AuditRow} {v : Verification}
      → Reports prev n rs v
      → v.ok ≡ true
      → Chain prev rs
  Reports-Chain (intact n e c) h = c
  Reports-Chain (broken n good bad rest why e same c wrong) h = absurd (ground arith)

  pub ok-Chain : (log : Log) → (verify digest log).ok ≡ true → Chain genesis (in_order log.rows)
  ok-Chain log h = Reports-Chain (verify-Reports log) h

  pub Chain-append :
      (prev : String) (xs ys : List AuditRow)
      → Chain prev xs
      → Chain (latest prev xs) ys
      → Chain prev (xs ++ ys)
  Chain-append prev [] ys c d = d
  Chain-append prev (x ∷ xs) ys (l, c) d = (l, Chain-append x.hash xs ys c d)

  pub Chain-split :
      (prev : String) (xs ys : List AuditRow)
      → Chain prev (xs ++ ys)
      → Chain prev xs × Chain (latest prev xs) ys
  Chain-split prev [] ys c = (tt, c)
  Chain-split prev (x ∷ xs) ys (l, c) = let (a, b) = Chain-split x.hash xs ys c in ((l, a), b)

  -- The next row's prev_hash is the hash of the newest row.
  latest-in_order :
      ((p : String) (e : Entry) → digest p e ≢ "")
      → (rs : List AuditRow) → Chain genesis (in_order rs)
      → latest genesis (in_order rs) ≡ prev_hash_of rs
  unfolding in_order
  latest-in_order some_text [] c = refl
  latest-in_order some_text (r ∷ rs) c =
      let (_, (l, _)) = Chain-split genesis (in_order rs) (r ∷ []) c in
      let full : r.hash ≢ "" =
        (λ h. some_text (latest genesis (in_order rs)) r.entry (sym (l.1) ∙ h)) in
      latest_last genesis (in_order rs) r ∙ sym (or_else_left r.hash genesis full)

  -- An append to a verified log gives a verified log of one row more, whoever appends what; a
  -- digest is never the empty string.
  pub append-verify :
      ((p : String) (e : Entry) → digest p e ≢ "")
      → (e : Entry) (log : Log) (n : ℕ) → verify digest log ≡ accepted n
      → verify digest (append digest e log).1 ≡ accepted (suc n)
  unfolding append in_order verify
  append-verify some_text e log n h =
      let c = ok-Chain log (ap (λ v. v.ok) h) in
      let last = latest-in_order some_text log.rows c in
      let row : Links (latest genesis (in_order log.rows)) new =
        (sym last, ap (λ p. digest p e) (sym last)) in
      let counted : 0 + length (in_order log.rows) ≡ n =
        ap (λ v. v.checked) (sym (verify_rows-Chain genesis 0 (in_order log.rows) c) ∙ h) in
      let total = length-append (in_order log.rows) (new ∷ []) in
      verify_rows-Chain genesis 0 _
        (Chain-append genesis (in_order log.rows) (new ∷ []) c (row, tt))
      ∙ ap accepted (omega (arith, counted, total))
    where
      new : AuditRow
      new = record {
        seq = log.next_seq;
        entry = e;
        prev_hash = prev_hash_of log.rows;
        hash = digest (prev_hash_of log.rows) e;
      }

  Chain-older :
      (xs ys : List AuditRow) → Chain genesis (in_order (xs ++ ys)) → Chain genesis (in_order ys)
  unfolding in_order
  Chain-older [] ys c = c
  Chain-older (x ∷ xs) ys c =
      Chain-older xs ys (Chain-split genesis (in_order (xs ++ ys)) (x ∷ []) c).0

  -- Verification does not see that the newest rows are gone: what is left verifies, with the
  -- number of the rows that are left.
  pub verify_prefix :
      (kept removed : List AuditRow) (m n k : ℕ)
      → verify digest (record { rows = removed ++ kept; next_seq = m }) ≡ accepted n
      → verify digest (record { rows = kept; next_seq = k }) ≡ accepted (length kept)
  unfolding verify
  verify_prefix kept removed m n k h =
      let c = ok-Chain (record { rows = removed ++ kept; next_seq = m }) (ap (λ v. v.ok) h) in
      verify_rows-Chain genesis 0 (in_order kept) (Chain-older removed kept c)
      ∙ ap accepted (omega (arith, length-in_order kept))
