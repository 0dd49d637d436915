-- ===== src/Genlib/Prefix.antt =====
-- `drop_prefix`.
use mlib.Prelude.{ℕ, ◌≡◌, ◌≢◌, refl, some, [], ◌∷◌, ◌++◌, arith}
use mlib.Text.{Text}
use mlib.Genlib.{path_combine, skip_slash, drop_prefix}

-- Of a path below a directory, where the prefix is the directory itself, drop_prefix leaves the
-- name below it, less a slash that it begins with.
pub drop_prefix-path_combine :
    (prefix file : Text) → drop_prefix (path_combine prefix file) prefix ≡ some (skip_slash file)
unfolding drop_prefix path_combine
drop_prefix-path_combine [] file = refl
drop_prefix-path_combine (c ∷ prefix) file = ground (arith, drop_prefix-path_combine prefix file)

-- Of a path that leaves the prefix at some character, drop_prefix leaves what stands behind that
-- character: the part that they share and one character more are lost, and a slash behind them.
pub drop_prefix-differs :
    (shared path rest : Text) (c d : ℕ)
    → c ≢ d
    → drop_prefix (shared ++ c ∷ path) (shared ++ d ∷ rest) ≡ some (skip_slash path)
unfolding drop_prefix
drop_prefix-differs [] path rest c d ne = ground arith
drop_prefix-differs (x ∷ shared) path rest c d ne =
    ground (arith, drop_prefix-differs shared path rest c d ne)
