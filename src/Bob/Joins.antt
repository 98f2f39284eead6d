-- ===== src/Bob/Joins.antt =====
-- internal/db/bob/bob/bob_joins.bob.go: the joins of a table in their three kinds, and randInt. What
-- is joined has an operation AliasedAs, which is an argument.
use april_homework.Common.{ℕ, zero, suc, ◌-◌, ◌%◌, Text, if◌then◌else◌, ltb}
use april_homework.Common.Int.{ℤ, pos, negsuc}

-- clause.InnerJoin, clause.LeftJoin and clause.RightJoin
pub data JoinKind : Type 0 where
  inner_join left_join right_join : JoinKind

pub record JoinSet (Q : Type 0) : Type 0 where
  pub inner : Q
  pub left : Q
  pub right : Q

-- joinSet.AliasedAs
unfoldable pub join_aliased_as : {Q : Type 0} → (Text → Q → Q) → Text → JoinSet Q → JoinSet Q
join_aliased_as aliased_as alias j = record {
  inner = aliased_as alias j.inner;
  left = aliased_as alias j.left;
  right = aliased_as alias j.right;
}

-- buildJoinSet
unfoldable pub build_join_set : {Q C : Type 0} → C → (C → JoinKind → Q) → JoinSet Q
build_join_set c f = record { inner = f c inner_join; left = f c left_join; right = f c right_join }

-- modAs: columns, and the mod of a query that they make.
pub record ModAs (Q C : Type 0) : Type 0 where
  pub columns : C
  pub make : C → Q → Q

module _ {Q C : Type 0} where
  unfoldable pub mod_as_apply : ModAs Q C → Q → Q
  mod_as_apply m q = m.make m.columns q

  -- The receiver is a copy: the mod that is aliased stays as it was.
  unfoldable pub mod_as_aliased_as : (Text → C → C) → Text → ModAs Q C → ModAs Q C
  mod_as_aliased_as aliased_as alias m = record m { columns = aliased_as alias m.columns }

abbrev pub two_63 : ℕ
two_63 = 9223372036854775808

abbrev pub two_64 : ℕ
two_64 = 18446744073709551616

-- The 64 bits of a word as an int64, in two's complement.
unfoldable pub int64_of : ℕ → ℤ
int64_of word = if ltb word two_63 then pos word else negsuc (two_64 - 1 - word)

unfoldable pub word_of : ℤ → ℕ
word_of (pos n) = n
word_of (negsuc n) = two_64 - 1 - n

-- Negation of an int64, which wraps around.
unfoldable pub negate : ℤ → ℤ
unfolding int64_of word_of
negate x = int64_of ((two_64 - word_of x) % two_64)

-- -n, as an integer.
abbrev pub minus : ℕ → ℤ
minus zero = pos 0
minus (suc n) = negsuc n

-- The remainder of Go has the sign of the dividend.
unfoldable pub remainder : ℤ → ℕ → ℤ
remainder (pos n) d = pos (n % d)
remainder (negsuc n) d = minus (suc n % d)

-- What randInt returns of `out`.
unfoldable pub rand_of : ℤ → ℤ
unfolding negate remainder
rand_of (negsuc n) = remainder (negate (negsuc n)) 10000
rand_of (pos n) = remainder (pos n) 10000

-- randInt, of the sum of a fresh maphash.Hash.
unfoldable pub rand_int : ℕ → ℤ
unfolding int64_of rand_of
rand_int sum = rand_of (int64_of sum)
