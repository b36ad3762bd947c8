-- ===== src/Kea/Options.antt =====
-- docker/kea/tools/dnsmasq_to_kea.py: its tables of option names and numbers.
use k8s_homelab.Prelude.{[], ◌∷◌, String, ℕ}
use k8s_homelab.Prelude.Text.{codes, Text}
use k8s_homelab.Prelude.Dict.{Dict}

abbrev named : String → ℕ → Text × ℕ
named name code = (codes name, code)

abbrev numbered : ℕ → String → ℕ × Text
numbered code name = (code, codes name)

unfoldable pub dnsmasq_option_names : Dict Text ℕ
dnsmasq_option_names =
    named "netmask" 1
    ∷ named "time-offset" 2
    ∷ named "router" 3
    ∷ named "dns-server" 6
    ∷ named "log-server" 7
    ∷ named "lpr-server" 9
    ∷ named "hostname" 12
    ∷ named "boot-file-size" 13
    ∷ named "domain-name" 15
    ∷ named "swap-server" 16
    ∷ named "root-path" 17
    ∷ named "extension-path" 18
    ∷ named "ip-forward-enable" 19
    ∷ named "default-ttl" 23
    ∷ named "mtu" 26
    ∷ named "broadcast" 28
    ∷ named "router-discovery" 31
    ∷ named "static-route" 33
    ∷ named "arp-timeout" 35
    ∷ named "tcp-ttl" 37
    ∷ named "nis-domain" 40
    ∷ named "nis-server" 41
    ∷ named "ntp-server" 42
    ∷ named "vendor-encap" 43
    ∷ named "netbios-ns" 44
    ∷ named "netbios-dd" 45
    ∷ named "netbios-nodetype" 46
    ∷ named "netbios-scope" 47
    ∷ named "T1" 58
    ∷ named "T2" 59
    ∷ named "tftp-server" 66
    ∷ named "bootfile-name" 67
    ∷ named "smtp-server" 69
    ∷ named "domain-search" 119
    ∷ named "sip-server" 120
    ∷ named "classless-static-route" 121
    ∷ named "tftp-server-address" 150
    ∷ named "server-ip-address" 255
    ∷ []

unfoldable pub kea_option_names : Dict ℕ Text
kea_option_names =
    numbered 2 "time-offset"
    ∷ numbered 3 "routers"
    ∷ numbered 4 "time-servers"
    ∷ numbered 6 "domain-name-servers"
    ∷ numbered 7 "log-servers"
    ∷ numbered 9 "lpr-servers"
    ∷ numbered 15 "domain-name"
    ∷ numbered 16 "swap-server"
    ∷ numbered 17 "root-path"
    ∷ numbered 18 "extensions-path"
    ∷ numbered 19 "ip-forwarding"
    ∷ numbered 23 "default-ip-ttl"
    ∷ numbered 26 "interface-mtu"
    ∷ numbered 28 "broadcast-address"
    ∷ numbered 33 "static-routes"
    ∷ numbered 35 "arp-cache-timeout"
    ∷ numbered 37 "default-tcp-ttl"
    ∷ numbered 40 "nis-domain"
    ∷ numbered 41 "nis-servers"
    ∷ numbered 42 "ntp-servers"
    ∷ numbered 44 "netbios-name-servers"
    ∷ numbered 45 "netbios-dd-server"
    ∷ numbered 46 "netbios-node-type"
    ∷ numbered 47 "netbios-scope"
    ∷ numbered 66 "tftp-server-name"
    ∷ numbered 67 "boot-file-name"
    ∷ numbered 69 "smtp-server"
    ∷ numbered 119 "domain-search"
    ∷ numbered 121 "classless-static-route"
    ∷ []

unfoldable pub skipped_options : Dict ℕ Text
skipped_options =
    numbered 1 "netmask (Kea derives it from the subnet)"
    ∷ numbered 12 "host-name (Kea sends reserved hostnames itself)"
    ∷ numbered 58 "T1 (set renew-timer instead)"
    ∷ numbered 59 "T2 (set rebind-timer instead)"
    ∷ []
