-- ===== src/Uri/Lazy.antt =====
-- What a target is completed to.
use sipgox.Prelude.{◌≡◌, true, ◌∷◌, arith}
use sipgox.Text.{Text, codes, contains, has_prefix}
use sipgox.Text.Lemmas.{contains-append}
use sipgox.Uri.{check_lazy_sip_uri}

contains-completed : (target dest : Text) → contains (check_lazy_sip_uri target dest) b'@' ≡ true
unfolding check_lazy_sip_uri contains
contains-completed target dest = ground (arith, contains-append target (b'@' ∷ dest) b'@')

has_prefix-completed :
    (target dest : Text) → has_prefix (check_lazy_sip_uri target dest) (codes "sip") ≡ true
unfolding check_lazy_sip_uri has_prefix
has_prefix-completed target dest = ground arith

settled :
    (full later : Text)
    → contains full b'@' ≡ true
    → has_prefix full (codes "sip") ≡ true
    → check_lazy_sip_uri full later ≡ full
unfolding check_lazy_sip_uri
settled full later at sip = rw (at, sip)

-- A completed target names a host and begins with `sip`, and completing it again, whatever the
-- destination then, leaves it as it is.
pub check_lazy_sip_uri-again :
    (target dest later : Text)
    → let full = check_lazy_sip_uri target dest in
      (contains full b'@' ≡ true)
      × (has_prefix full (codes "sip") ≡ true)
      × (check_lazy_sip_uri full later ≡ full)
check_lazy_sip_uri-again target dest later =
    let at = contains-completed target dest in
    let sip = has_prefix-completed target dest in
    (at, sip, settled (check_lazy_sip_uri target dest) later at sip)
