-- ===== src/Reconcile/Reserved.antt =====
-- internal/netutil/reserved.go: the interfaces that the host keeps for itself.
use wireguardd.Base.{
  if◌then◌else◌, text, trim_space, starts_with, is_blank, Bytes, bytes_eq, Bool, true, false,
}

unfoldable pub reserved_host_interface : Bytes → Bool
unfolding trim_space starts_with
reserved_host_interface name =
    let n = trim_space name in
    if is_blank n
    then false
    else if bytes_eq n (text "mesh0")
    then true
    else starts_with n (text "mesh")
