-- ===== src/Audit/Tamper.antt =====
-- What two audit logs that both verify, and end in the same hash, have in common.
use sre_blackboard.Common.{
  ◌≡◌, ◌≢◌, refl, sym, ap, ◌∙◌, subst, String, true, List, [], ◌∷◌, map, Among, first, later,
}
use sre_blackboard.Audit.Log.{Entry, AuditRow, Log, genesis, in_order, verify}
use sre_blackboard.Audit.Chain.{Chain, Links, latest, latest_last, Chain-split, ok-Chain}

-- A row without its number.
abbrev pub content : AuditRow → String × Entry × String
content r = (r.prev_hash, r.entry, r.hash)

-- The hash that an auditor has noted down: that of the newest row.
abbrev pub tip : List AuditRow → String
tip [] = genesis
tip (r ∷ rs) = r.hash

module _ (digest : String → Entry → String) where
  -- No two different contents of the rows of these logs have the same digest.
  abbrev pub CollisionFree : List AuditRow → List AuditRow → Type 0
  CollisionFree xs ys =
      (r s : AuditRow)
      → Among r xs
      → Among s ys
      → digest r.prev_hash r.entry ≡ digest s.prev_hash s.entry
      → (r.prev_hash ≡ s.prev_hash) × (r.entry ≡ s.entry)

  -- The chain, read from the newest row.
  abbrev Back : List AuditRow → Type 0
  Back [] = Unit
  Back (r ∷ rs) = Links digest (tip rs) r × Back rs

  latest-tip : (rs : List AuditRow) → latest genesis (in_order rs) ≡ tip rs
  unfolding in_order
  latest-tip [] = refl
  latest-tip (r ∷ rs) = latest_last genesis (in_order rs) r

  Chain-Back : (rs : List AuditRow) → Chain digest genesis (in_order rs) → Back rs
  unfolding in_order
  Chain-Back [] c = tt
  Chain-Back (r ∷ rs) c =
      let (older, (l, _)) = Chain-split digest genesis (in_order rs) (r ∷ []) c in
      (subst (λ p. Links digest p r) (latest-tip rs) l, Chain-Back rs older)

  tip-ne-genesis :
      ((p : String) (e : Entry) → digest p e ≢ genesis)
      → (r : AuditRow) (rs : List AuditRow) → Back (r ∷ rs)
      → r.hash ≢ genesis
  tip-ne-genesis proper r rs ((_, l), _) h = proper (tip rs) r.entry (sym l ∙ h)

  Back-unique :
      ((p : String) (e : Entry) → digest p e ≢ genesis)
      → (xs ys : List AuditRow) → CollisionFree xs ys
      → Back xs
      → Back ys
      → tip xs ≡ tip ys
      → map content xs ≡ map content ys
  Back-unique proper [] [] free b c e = refl
  Back-unique proper (x ∷ xs) [] free b c e = absurd (tip-ne-genesis proper x xs b e)
  Back-unique proper [] (y ∷ ys) free b c e = absurd (tip-ne-genesis proper y ys c (sym e))
  Back-unique proper (x ∷ xs) (y ∷ ys) free ((px, hx), b) ((py, hy), c) e =
      let dx : x.hash ≡ digest x.prev_hash x.entry = hx ∙ ap (λ p. digest p x.entry) (sym px) in
      let dy : y.hash ≡ digest y.prev_hash y.entry = hy ∙ ap (λ p. digest p y.entry) (sym py) in
      let (p, f) = free x y (first refl) (first refl) (sym dx ∙ e ∙ dy) in
      let rest =
        Back-unique proper xs ys (λ r s m n. free r s (later m) (later n)) b c (sym px ∙ p ∙ py) in
      cc

  -- Two logs that verify and end in the same hash have the same rows, up to their numbers: nobody
  -- can edit, delete, insert or reorder rows and keep the newest hash, unless SHA-256 collides on
  -- the rows of the two logs or has the genesis value as a digest.
  pub verified_unique :
      ((p : String) (e : Entry) → digest p e ≢ genesis)
      → (log forged : Log) → CollisionFree log.rows forged.rows
      → (verify digest log).ok ≡ true
      → (verify digest forged).ok ≡ true
      → tip log.rows ≡ tip forged.rows
      → map content log.rows ≡ map content forged.rows
  verified_unique proper log forged free h k e =
      Back-unique proper log.rows forged.rows free (Chain-Back log.rows (ok-Chain digest log h))
        (Chain-Back forged.rows (ok-Chain digest forged k)) e
