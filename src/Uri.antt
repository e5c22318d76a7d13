-- ===== src/Uri.antt =====
-- utils.go: `CheckLazySipUri`.
pub mod Lazy
use sipgox.Prelude.{ℕ, Bool, true, false, not, List, [], ◌∷◌, ◌++◌, if◌then◌else◌}
use sipgox.Text.{Text, codes, contains, has_prefix}

unfoldable pub check_lazy_sip_uri : Text → Text → Text
check_lazy_sip_uri target dest_overwrite =
    let full = if not (contains target b'@') then target ++ b'@' ∷ dest_overwrite else target in
    if not (has_prefix full (codes "sip")) then codes "sip:" ++ full else full
