-- ===== src/Server/Limiting.antt =====
-- The rate limiter: how many requests of one key pass in a window.
use april_homework.Common.{
  ℕ, suc, ◌+◌, ◌-◌, ◌≡◌, ◌≢◌, refl, sym, ap, ◌∙◌, subst, List, [], ◌∷◌, Text, Result, ok, Bool,
  true, false, ◌==◌, Bool-cases, arith, inl, inr, if◌then◌else◌, ltb, leb,
}
use april_homework.Common.Int.{ℤ, pos, negsuc, pos_part, ltb_ℤ}
use april_homework.Strings.{text_eq}
use april_homework.Strings.Laws.{text_eq_iff}
use april_homework.Server.{Request}
use april_homework.Server.Limiter.{Redis, limit_key, admit_count, rate_limit}

-- INCR adds one to the counter of its key and returns the sum, or fails and changes nothing;
-- EXPIRE changes no counter while the window lasts. An absent key counts 0.
pub record IsCounting (redis : Redis) : Type 0 where
  pub count : Text → redis.State → ℕ
  pub incr_ok :
      (k : Text) (s : redis.State) (n : ℕ)
      → (redis.incr k s).0 ≡ ok n
      → (n ≡ suc (count k s))
        × (count k (redis.incr k s).1 ≡ suc (count k s))
        × ((j : Text) → j ≢ k → count j (redis.incr k s).1 ≡ count j s)
  pub expire_law : (k j : Text) (s : redis.State) → count j (redis.expire k s) ≡ count j s

pass_iff :
    (limit : ℤ) (n : ℕ)
    → (if ltb_ℤ limit (pos (suc n)) then false else true) ≡ ltb n (pos_part limit)
pass_iff (pos l) n = ground arith
pass_iff (negsuc l) n = ground arith

min_take :
    (p m c c' l : ℕ)
    → p ≡ (if leb m (l - c') then m else l - c')
    → c' ≡ suc c
    → (if ltb c l then 1 else 0) + p ≡ (if leb (1 + m) (l - c) then 1 + m else l - c)
min_take p m c c' l h e = ground arith

min_skip :
    (p m c c' l : ℕ)
    → p ≡ (if leb m (l - c') then m else l - c')
    → c' ≡ c
    → 0 + p ≡ (if leb (0 + m) (l - c) then 0 + m else l - c)
min_skip p m c c' l h e = ground arith

module _ (redis : Redis) (split_host_port : Text → Result Text) (limit : ℤ) where
  abbrev pub key_of : Request → Text
  key_of = limit_key redis split_host_port limit

  -- The requests of one window in turn: how many of the key `k` are made, and how many pass.
  unfoldable pub made : Text → List Request → ℕ
  made k [] = 0
  made k (r ∷ rs) = (if text_eq (key_of r) k then 1 else 0) + made k rs

  unfoldable pub passed : Text → List Request → redis.State → ℕ
  passed k [] s = 0
  passed k (r ∷ rs) s =
      let out = rate_limit redis split_host_port limit r s in
      (if text_eq (key_of r) k then (if out.0 then 1 else 0) else 0) + passed k rs out.1

  module _ (counting : IsCounting redis)
      (answers : (k : Text) (s : redis.State) → (n : ℕ) × ((redis.incr k s).0 ≡ ok n)) where
    expire_if :
        (b : Bool) (k j : Text) (s : redis.State)
        → counting.count j (if b then redis.expire k s else s) ≡ counting.count j s
    expire_if true k j s = counting.expire_law k j s
    expire_if false k j s = refl

    -- One request: its own counter goes up by one, the others stay, and it passes while the counter
    -- was below the limit.
    pub rate_limit-step :
        (r : Request) (s : redis.State)
        → let out = rate_limit redis split_host_port limit r s in
          (out.0 ≡ ltb (counting.count (key_of r) s) (pos_part limit))
          × (counting.count (key_of r) out.1 ≡ suc (counting.count (key_of r) s))
          × ((j : Text) → j ≢ key_of r → counting.count j out.1 ≡ counting.count j s)
    unfolding rate_limit
    rate_limit-step r s =
        let (n, e) = answers (key_of r) s in
        let (sum, own, other) = counting.incr_ok (key_of r) s n e in
        subst
          (λ c.
            ((admit_count redis split_host_port limit (key_of r) (c, (redis.incr (key_of r) s).1)).0
              ≡ ltb (counting.count (key_of r) s) (pos_part limit))
            × (counting.count (key_of r)
                  (admit_count redis split_host_port limit (key_of r)
                    (c, (redis.incr (key_of r) s).1)).1
                ≡ suc (counting.count (key_of r) s))
            × ((j : Text)
                → j ≢ key_of r
                → counting.count j
                    (admit_count redis split_host_port limit (key_of r)
                      (c, (redis.incr (key_of r) s).1)).1
                  ≡ counting.count j s))
          (ap ok (sym sum) ∙ sym e)
          (
            pass_iff limit (counting.count (key_of r) s),
            expire_if (suc (counting.count (key_of r) s) == 1) (key_of r) (key_of r)
                  (redis.incr (key_of r) s).1
                ∙ own,
            λ j ne.
                expire_if (suc (counting.count (key_of r) s) == 1) (key_of r) j
                  (redis.incr (key_of r) s).1
                ∙ other j ne,
          )

    -- While Redis answers, and in one window, the requests of a key that pass are all that are made
    -- or, if they are more, as many as its counter lies below the limit.
    pub passed-min :
        (k : Text) (rs : List Request) (s : redis.State)
        → let room = pos_part limit - counting.count k s in
          passed k rs s ≡ (if leb (made k rs) room then made k rs else room)
    unfolding passed made
    passed-min k [] s = ground arith
    passed-min k (r ∷ rs) s =
        let (now, own, other) = rate_limit-step r s in
        let s' = (rate_limit redis split_host_port limit r s).1 in
        let rest = passed-min k rs s' in
        elim (Bool-cases (text_eq (key_of r) k)) [
          | inl same ↦
              let e = (text_eq_iff (key_of r) k).0 same in
              let up = subst (λ j. counting.count j s' ≡ suc (counting.count j s)) e own in
              rw (same, now, e)
                (min_take (passed k rs s') (made k rs) (counting.count k s) (counting.count k s')
                  (pos_part limit) rest up)
          | inr differs ↦
              let e = other k (λ h. cc (differs, (text_eq_iff (key_of r) k).1 (sym h))) in
              rw differs (
                min_skip (passed k rs s') (made k rs) (counting.count k s) (counting.count k s')
                  (pos_part limit) rest e)
        ]
