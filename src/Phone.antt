-- ===== src/Phone.antt =====
-- phone.go: the phone and its options, what it takes of its user agent, and the formats as it logs them.
pub mod Register
use sipgox.Prelude.{Bool, ◌||◌, List, [], ◌∷◌, ◌++◌, map, if◌then◌else◌}
use sipgox.Prelude.Int.{ℤ}
use sipgox.Text.{Text, codes, eq_text, join}
use sipgox.Ip.{Ip, Ip6Notation, parse_ip}
use sipgox.Listeners.{ListenAddr, is_nil_ip}

pub record Phone : Type 0 where
  pub listen_addrs : List ListenAddr

abbrev pub PhoneOption : Type 0
PhoneOption = Phone → Phone

unfoldable pub with_phone_listen_addr : ListenAddr → PhoneOption
with_phone_listen_addr addr p = record p { listen_addrs = p.listen_addrs ++ addr ∷ [] }

-- The loop over the options, the first one first.
unfoldable pub apply_options : List PhoneOption → Phone → Phone
apply_options [] p = p
apply_options (o ∷ options) p = apply_options options (o p)

unfoldable pub new_phone : List PhoneOption → Phone
unfolding apply_options
new_phone options = apply_options options (record { listen_addrs = [] })

-- The packages sipgo and net: the name and the address of the user agent, the rest of a contact for a user and a
-- transport, the text of a URI with a host, a port and a user, `Uri.HostPort`, and `IsUnspecified`.
pub record Agent : Type 0 where
  pub ua_name : Text
  pub ua_ip : Ip
  pub contact_rest : Text → Text → Text
  pub uri_text : Text → ℤ → Text → Text
  pub host_port : Text → Text
  pub is_unspecified : Ip → Bool

-- The address of the media: that of the host, where it is the text of one that is specified.
unfoldable pub host_media_ip : Ip6Notation → Agent → Text → Ip
unfolding is_nil_ip
host_media_ip v6 agent host =
    let lip = parse_ip v6 host in
    if is_nil_ip lip || agent.is_unspecified lip then agent.ua_ip else lip

format_name : Text → Text
format_name f =
    if eq_text f (codes "0")
    then codes "0(ulaw)"
    else if eq_text f (codes "8")
    then codes "8(alaw)"
    else f

unfoldable pub log_formats : List Text → Text
unfolding format_name
log_formats formats = join (map format_name formats) (codes ",")
