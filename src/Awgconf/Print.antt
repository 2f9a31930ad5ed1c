-- ===== src/Awgconf/Print.antt =====
-- Config.String and the UAPI methods of internal/awgconf/config.go and params.go: the lines that they
-- write, and the texts.
use lotsman.Prelude.{
  Bool, true, false, not, ◌&&◌, List, [], ◌∷◌, ◌++◌, map, ◌==◌, nat_eq, ℤ, pos, negsuc,
}
use Prim.Native.String.{String}
use lotsman.Bytes.{Text, codes, decimal, integer}
use lotsman.Awgconf.{Params, Interface, Peer, Config, Codec, is_zero_range, is_zero_key}
use lotsman.Awgconf.Values.{print_range, hex, join_list}

-- "%s = %v"
unfoldable pub assignment : Text → Text → Text
assignment k v = k ++ (b' ' ∷ b'=' ∷ b' ' ∷ v)

abbrev pub line : String → Text → List Text
line k v = assignment (codes k) v ∷ []

abbrev pub line_if : Bool → String → Text → List Text
line_if true k v = line k v
line_if false k v = []

abbrev pub is_empty : {A : Type 0} → List A → Bool
is_empty [] = true
is_empty (x ∷ xs) = false

abbrev pub is_zero_int : ℤ → Bool
is_zero_int (pos n) = n == 0
is_zero_int (negsuc n) = false

abbrev pub has_junk : Params → Bool
has_junk p = not ((p.jc == 0) && (p.jmin == 0) && (p.jmax == 0))

-- The lines of the parameters, group by group.
unfoldable pub junk_lines : Params → List Text
unfolding assignment decimal
junk_lines p =
    line_if (has_junk p) "Jc" (decimal p.jc)
    ++ line_if (has_junk p) "Jmin" (decimal p.jmin)
    ++ line_if (has_junk p) "Jmax" (decimal p.jmax)

unfoldable pub padding_lines : Params → List Text
unfolding assignment decimal
padding_lines p =
    line "S1" (decimal p.s1)
    ++ line "S2" (decimal p.s2)
    ++ line "S3" (decimal p.s3)
    ++ line "S4" (decimal p.s4)

unfoldable pub header_lines : Params → List Text
unfolding assignment print_range
header_lines p =
    line_if (not (is_zero_range p.h1)) "H1" (print_range p.h1)
    ++ line_if (not (is_zero_range p.h2)) "H2" (print_range p.h2)
    ++ line_if (not (is_zero_range p.h3)) "H3" (print_range p.h3)
    ++ line_if (not (is_zero_range p.h4)) "H4" (print_range p.h4)

unfoldable pub signature_lines : Params → List Text
unfolding assignment
signature_lines p =
    line_if (not (is_empty p.i1)) "I1" p.i1
    ++ line_if (not (is_empty p.i2)) "I2" p.i2
    ++ line_if (not (is_empty p.i3)) "I3" p.i3
    ++ line_if (not (is_empty p.i4)) "I4" p.i4
    ++ line_if (not (is_empty p.i5)) "I5" p.i5

unfoldable pub params_lines : Params → List Text
unfolding junk_lines padding_lines header_lines signature_lines
params_lines p = junk_lines p ++ padding_lines p ++ header_lines p ++ signature_lines p

unfoldable pub interface_lines : Codec → Interface → List Text
unfolding join_list assignment decimal integer params_lines
interface_lines codec i =
    line "PrivateKey" (codec.encode_key i.private_key)
    ++ line_if (not (is_empty i.addresses)) "Address" (join_list codec.print_prefix i.addresses)
    ++ line_if (not (is_empty i.dns)) "DNS" (join_list codec.print_addr i.dns)
    ++ line_if (not (i.listen_port == 0)) "ListenPort" (decimal i.listen_port)
    ++ line_if (not (is_zero_int i.mtu)) "MTU" (integer i.mtu)
    ++ params_lines i.params

unfoldable pub peer_lines : Codec → Peer → List Text
unfolding join_list assignment decimal
peer_lines codec p =
    line "PublicKey" (codec.encode_key p.public_key)
    ++ line_if (not (is_zero_key p.preshared_key)) "PresharedKey" (codec.encode_key p.preshared_key)
    ++ line_if (not (is_empty p.endpoint)) "Endpoint" p.endpoint
    ++ line_if (not (is_empty p.allowed_ips)) "AllowedIPs"
        (join_list codec.print_prefix p.allowed_ips)
    ++ line_if (not (p.persistent_keepalive == 0)) "PersistentKeepalive"
        (decimal p.persistent_keepalive)

unfoldable pub peers_lines : Codec → List Peer → List Text
unfolding peer_lines
peers_lines codec [] = []
peers_lines codec (p ∷ ps) = [] ∷ codes "[Peer]" ∷ (peer_lines codec p ++ peers_lines codec ps)

unfoldable pub config_lines : Codec → Config → List Text
unfolding interface_lines peers_lines
config_lines codec c =
    codes "[Interface]" ∷ (interface_lines codec c.interface ++ peers_lines codec c.peers)

-- Each line with its line feed.
unfoldable pub unlines : List Text → Text
unlines [] = []
unlines (l ∷ ls) = l ++ 10 ∷ unlines ls

-- Config.String
unfoldable pub render : Codec → Config → Text
unfolding config_lines unlines
render codec c = unlines (config_lines codec c)

-- "%s=%s"
abbrev setting : String → Text → List Text
setting k v = (codes k ++ b'=' ∷ v) ∷ []

abbrev setting_if : Bool → String → Text → List Text
setting_if true k v = setting k v
setting_if false k v = []

unfoldable params_settings : Params → List Text
unfolding decimal print_range
params_settings p =
    setting_if (has_junk p) "jc" (decimal p.jc)
    ++ setting_if (has_junk p) "jmin" (decimal p.jmin)
    ++ setting_if (has_junk p) "jmax" (decimal p.jmax)
    ++ setting "s1" (decimal p.s1)
    ++ setting "s2" (decimal p.s2)
    ++ setting "s3" (decimal p.s3)
    ++ setting "s4" (decimal p.s4)
    ++ setting_if (not (is_zero_range p.h1)) "h1" (print_range p.h1)
    ++ setting_if (not (is_zero_range p.h2)) "h2" (print_range p.h2)
    ++ setting_if (not (is_zero_range p.h3)) "h3" (print_range p.h3)
    ++ setting_if (not (is_zero_range p.h4)) "h4" (print_range p.h4)
    ++ setting_if (not (is_empty p.i1)) "i1" p.i1
    ++ setting_if (not (is_empty p.i2)) "i2" p.i2
    ++ setting_if (not (is_empty p.i3)) "i3" p.i3
    ++ setting_if (not (is_empty p.i4)) "i4" p.i4
    ++ setting_if (not (is_empty p.i5)) "i5" p.i5

unfoldable pub peer_settings : Codec → Peer → List Text
unfolding hex decimal
peer_settings codec p =
    setting "public_key" (hex p.public_key)
    ++ setting_if (not (is_zero_key p.preshared_key)) "preshared_key" (hex p.preshared_key)
    ++ setting_if (not (is_empty p.endpoint)) "endpoint" p.endpoint
    ++ setting "replace_allowed_ips" (codes "true")
    ++ map (λ ip. codes "allowed_ip=" ++ codec.print_prefix ip) p.allowed_ips
    ++ setting_if (not (p.persistent_keepalive == 0)) "persistent_keepalive_interval"
        (decimal p.persistent_keepalive)

unfoldable pub all_peer_settings : Codec → List Peer → List Text
unfolding peer_settings
all_peer_settings codec [] = []
all_peer_settings codec (p ∷ ps) = peer_settings codec p ++ all_peer_settings codec ps

-- Config.UAPI and Peer.UAPI
unfoldable pub uapi : Codec → Config → Text
unfolding hex decimal params_settings all_peer_settings unlines
uapi codec c = unlines (
    setting "private_key" (hex c.interface.private_key)
    ++ setting_if (not (c.interface.listen_port == 0)) "listen_port"
        (decimal c.interface.listen_port)
    ++ params_settings c.interface.params
    ++ all_peer_settings codec c.peers)

unfoldable pub peer_uapi : Codec → Peer → Text
unfolding peer_settings unlines
peer_uapi codec p = unlines (peer_settings codec p)
