-- ===== src/Config/Hosts/Exact.antt =====
-- inspect/config/config.go: what buildAllHosts collects.
use we_term.Config.Hosts.{
  ModuleHosts, add_ips, add_lists, build_all_hosts, get_module_hosts, ip_lists, role_ips,
}
use we_term.Config.Settings.{Addresses}
use we_term.Prelude.{
  All, Bool, Bool-cases, List, String, [], arith, eq_iff, false, inl, inr, not, refl, true, ◌&&◌,
  ◌++◌, ◌==◌, ◌||◌, ◌∷◌, ◌≡◌,
}
use we_term.Prelude.Sorting.{Distinct, mem}

mem-append : (k : String) (xs ys : List String) → mem k (xs ++ ys) ≡ (mem k xs || mem k ys)
mem-append k [] ys = refl
mem-append k (x ∷ xs) ys = ground (arith, mem-append k xs ys)

-- a text that stands in one of the lists
abbrev pub in_some : String → List (List String) → Bool
in_some k [] = false
in_some k (xs ∷ xss) = mem k xs || in_some k xss

-- the map behind the loop has the addresses of both
add_ips-seen :
    (k : String) (seen ips : List String) → mem k (add_ips seen ips).1 ≡ (mem k seen || mem k ips)
unfolding add_ips
add_ips-seen k seen [] = ground arith
add_ips-seen k seen (ip ∷ ips) = elim (Bool-cases (mem ip seen)) [
  | inl e ↦ rw e (elim (Bool-cases (ip == k)) [
    | inl f ↦ ground (arith, add_ips-seen k seen ips, eq_iff ip k)
    | inr f ↦ ground (arith, add_ips-seen k seen ips)
  ])
  | inr e ↦ rw e (ground (arith, add_ips-seen k (ip ∷ seen) ips))
]

-- the loop appends the addresses that were not seen before
add_ips-mem :
    (k : String) (seen ips : List String)
    → mem k (add_ips seen ips).0 ≡ (mem k ips && not (mem k seen))
unfolding add_ips
add_ips-mem k seen [] = refl
add_ips-mem k seen (ip ∷ ips) = elim (Bool-cases (mem ip seen)) [
  | inl e ↦ rw e (elim (Bool-cases (ip == k)) [
    | inl f ↦ ground (arith, add_ips-mem k seen ips, eq_iff ip k)
    | inr f ↦ ground (arith, add_ips-mem k seen ips)
  ])
  | inr e ↦ rw e (elim (Bool-cases (ip == k)) [
    | inl f ↦ ground (arith, add_ips-mem k (ip ∷ seen) ips, eq_iff ip k)
    | inr f ↦ ground (arith, add_ips-mem k (ip ∷ seen) ips)
  ])
]

add_ips-Distinct : (seen ips : List String) → Distinct (add_ips seen ips).0
unfolding add_ips
add_ips-Distinct seen [] = tt
add_ips-Distinct seen (ip ∷ ips) = elim (Bool-cases (mem ip seen)) [
  | inl e ↦ rw e (add_ips-Distinct seen ips)
  | inr e ↦ rw e (
    ground (arith, add_ips-mem ip (ip ∷ seen) ips, (eq_iff ip ip).1 refl),
    add_ips-Distinct (ip ∷ seen) ips,
  )
]

Distinct-append :
    (xs ys : List String)
    → Distinct xs
    → Distinct ys
    → ((k : String) → mem k xs ≡ true → mem k ys ≡ false)
    → Distinct (xs ++ ys)
Distinct-append [] ys dx dy h = dy
Distinct-append (x ∷ xs) ys dx dy h = (
  ground (arith, mem-append x xs ys, h x (ground (arith, (eq_iff x x).1 refl)), dx.0),
  Distinct-append xs ys dx.1 dy (λ k m. h k (ground arith)),
)

add_lists-mem :
    (k : String) (seen : List String) (xss : List (List String))
    → mem k (add_lists seen xss) ≡ (in_some k xss && not (mem k seen))
unfolding add_lists
add_lists-mem k seen [] = refl
add_lists-mem k seen (xs ∷ xss) = ground (
  arith,
  mem-append k (add_ips seen xs).0 (add_lists (add_ips seen xs).1 xss),
  add_ips-mem k seen xs,
  add_ips-seen k seen xs,
  add_lists-mem k (add_ips seen xs).1 xss,
)

add_lists-Distinct : (seen : List String) (xss : List (List String)) → Distinct (add_lists seen xss)
unfolding add_lists
add_lists-Distinct seen [] = tt
add_lists-Distinct seen (xs ∷ xss) =
    Distinct-append (add_ips seen xs).0 (add_lists (add_ips seen xs).1 xss)
      (add_ips-Distinct seen xs) (add_lists-Distinct (add_ips seen xs).1 xss)
      (λ k m. ground (
        arith,
        add_ips-mem k seen xs,
        add_ips-seen k seen xs,
        add_lists-mem k (add_ips seen xs).1 xss,
      ))

-- The host list has no address twice, and its addresses are exactly those of the twenty lists.
pub build_all_hosts_exact :
    (a : Addresses)
    → Distinct (build_all_hosts a)
      × ((k : String) → mem k (build_all_hosts a) ≡ in_some k (ip_lists a))
unfolding build_all_hosts
build_all_hosts_exact a =
    (add_lists-Distinct [] (ip_lists a), λ k. ground (arith, add_lists-mem k [] (ip_lists a)))

mem-role_ips :
    (a : Addresses) (k : String) (ips : List String)
    → mem k (role_ips a ips) ≡ true
    → (mem k ips || mem k a.monitor_v3_ips) ≡ true
mem-role_ips a k [] h = h
mem-role_ips a k (ip ∷ ips) h = ground arith

-- the address list of a module stands in the list of all hosts
abbrev pub Listed : Addresses → ModuleHosts → Type 0
Listed a m = (k : String) → mem k m.ips ≡ true → mem k (build_all_hosts a) ≡ true

-- Every host on which a module is looked for is a host whose metrics are collected.
get_module_hosts-Listed : (a : Addresses) → All (Listed a) (get_module_hosts a)
unfolding get_module_hosts
get_module_hosts-Listed a =
    let exact = (build_all_hosts_exact a).1 in
    (
      (λ k m. ground (arith, exact k)),
      (
        (λ k m. ground (arith, exact k)),
        (
          (λ k m. ground (arith, exact k)),
          (
            (λ k m. ground (arith, exact k)),
            (
              (λ k m. ground (arith, exact k)),
              (
                (λ k m. ground (arith, exact k)),
                (
                  (λ k m. ground (arith, exact k)),
                  (
                    (λ k m. ground (arith, exact k)),
                    (
                      (λ k m. ground (arith, exact k)),
                      (
                        (λ k m.
                            ground (arith, exact k, mem-role_ips a k a.monitor_v3_monitor_ips m)),
                        (
                          (λ k m.
                              ground (
                                arith,
                                exact k,
                                mem-role_ips a k a.monitor_v3_influxdb_proxy_ips m,
                              )),
                          (
                            (λ k m.
                                ground
                                  (arith, exact k, mem-role_ips a k a.monitor_v3_transfer_ips m)),
                            (
                              (λ k m. ground (
                                arith,
                                exact k,
                                mem-role_ips a k a.monitor_v3_unify_query_ips m,
                              )),
                              tt,
                            ),
                          ),
                        ),
                      ),
                    ),
                  ),
                ),
              ),
            ),
          ),
        ),
      ),
    )
