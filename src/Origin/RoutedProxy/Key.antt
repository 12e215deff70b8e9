-- ===== src/Origin/RoutedProxy/Key.antt =====
-- internal/cftunnel/origin/routed_proxy.go: what the keys of the proxies tell apart.
use cf_tunnel.Prelude.{◌≡◌, refl, sym, ◌∙◌, ◌==◌, ap, Bool, true, false, [], ◌∷◌, ◌++◌, ◌≢◌, drop}
use cf_tunnel.Text.{Text, codes}
use cf_tunnel.Text.Laws.{Lacks, join_injective}
use cf_tunnel.Config.RouteFlag.{format_bool}
use cf_tunnel.Origin.RoutedProxy.{route_proxy_key}

abbrev pub LacksComma : Text → Type 0
LacksComma = Lacks b','

-- The flag that a text printed by `%t` begins with.
read_flag : Text → Bool
read_flag [] = false
read_flag (c ∷ _) = c == b't'

read_flag-format_bool : (b : Bool) (rest : Text) → read_flag (format_bool b ++ rest) ≡ b
unfolding read_flag
read_flag-format_bool true rest = refl
read_flag-format_bool false rest = refl

-- What follows the first flag and the words behind it.
second_flag : Bool → Text → Text
second_flag true = drop 22
second_flag false = drop 23

second_flag_lem :
    (b c : Bool)
    → second_flag b (format_bool b ++ (codes ",pass_host_header=" ++ format_bool c))
      ≡ format_bool c ++ []
unfolding second_flag
second_flag_lem true true = refl
second_flag_lem true false = refl
second_flag_lem false true = refl
second_flag_lem false false = refl

flags_injective :
    (b c b' c' : Bool)
    → format_bool b ++ (codes ",pass_host_header=" ++ format_bool c)
      ≡ format_bool b' ++ (codes ",pass_host_header=" ++ format_bool c')
    → (b ≡ b') × (c ≡ c')
flags_injective b c b' c' e =
    let same = sym (read_flag-format_bool b _) ∙ ap read_flag e ∙ read_flag-format_bool b' _ in
    let rest =
      sym (second_flag_lem b c)
      ∙ ap (second_flag b) e
      ∙ ap (λ x. second_flag x (format_bool b' ++ (codes ",pass_host_header=" ++ format_bool c')))
          same
      ∙ second_flag_lem b' c' in
    (same, sym (read_flag-format_bool c []) ∙ ap read_flag rest ∙ read_flag-format_bool c' [])

-- Keys of comma-free texts are equal only where all their parts are.
pub key_injective :
    (h p t s : Text) (b c : Bool) (h' p' t' s' : Text) (b' c' : Bool)
    → LacksComma h × LacksComma p × LacksComma t × LacksComma s
    → LacksComma h' × LacksComma p' × LacksComma t' × LacksComma s'
    → route_proxy_key h p t s b c ≡ route_proxy_key h' p' t' s' b' c'
    → (h ≡ h') × (p ≡ p') × (t ≡ t') × (s ≡ s') × (b ≡ b') × (c ≡ c')
unfolding route_proxy_key
key_injective h p t s b c h' p' t' s' b' c' (lh, lp, lt, ls) (lh', lp', lt', ls') e =
    let (eh, e1) = join_injective b',' h h' _ _ lh lh' (ap (drop 5) e) in
    let (ep, e2) = join_injective b',' p p' _ _ lp lp' (ap (drop 5) e1) in
    let (et, e3) = join_injective b',' t t' _ _ lt lt' (ap (drop 7) e2) in
    let (es, e4) = join_injective b',' s s' _ _ ls ls' (ap (drop 12) e3) in
    let (eb, ec) = flags_injective b c b' c' (ap (drop 21) e4) in (eh, ep, et, es, eb, ec)

-- No such key is the key "" of the default proxy.
pub key-ne-nil : (h p t s : Text) (b c : Bool) → route_proxy_key h p t s b c ≢ []
unfolding route_proxy_key
key-ne-nil h p t s b c e = cc
