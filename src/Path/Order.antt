-- ===== src/Path/Order.antt =====
-- Both orders on paths are strict and total: that of the texts, by which the database sorts, and
-- that of the filenames, by which the service sorts.
use storm_tape.Prelude.{◌≡◌, true, false, Text}
use storm_tape.Path.Lex.{IsStrictOrder, ltb-IsStrictOrder, lex-IsStrictOrder}
use storm_tape.Path.{text_lt, path_lt, path_key}

pub text_lt-IsStrictOrder : IsStrictOrder text_lt
unfolding text_lt
text_lt-IsStrictOrder = lex-IsStrictOrder ltb-IsStrictOrder

module _ (p q r : Text) where
  pub path_lt_irrefl : path_lt p p ≡ false
  unfolding path_lt
  path_lt_irrefl = (lex-IsStrictOrder text_lt-IsStrictOrder).irrefl (path_key p)

  pub path_lt_trans : path_lt p q ≡ true → path_lt q r ≡ true → path_lt p r ≡ true
  unfolding path_lt
  path_lt_trans =
      (lex-IsStrictOrder text_lt-IsStrictOrder).trans (path_key p) (path_key q) (path_key r)

  pub path_lt_total : path_lt p q ≡ false → path_lt q p ≡ false → path_key p ≡ path_key q
  unfolding path_lt
  path_lt_total = (lex-IsStrictOrder text_lt-IsStrictOrder).total (path_key p) (path_key q)
