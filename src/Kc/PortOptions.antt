-- ===== src/Kc/PortOptions.antt =====
-- internal/engine/kc/kc.go: the port options of a built command.
use portcloak.Base.{
  append_nil, append_assoc, subst, not, ◌&&◌, ◌≡◌, refl, sym, ap, ◌∙◌, ◌⊎◌, inl, inr, Bool, true,
  false, List, [], ◌∷◌, ◌++◌, String, str_eq, concat, itoa, arith, Bool-cases, ltb, length,
  if◌then◌else◌,
}
use portcloak.Base.Int.{ℤ, pos, negsuc, nonpositive, pos_part}
use portcloak.Base.Result.{ok, passed, pass, ok-inj}
use portcloak.Kc.{
  Ports, OptionSet, ExportRequest, KcCommand, has, known, port_arg, port_args, build_export,
  with_options, export_args,
}

-- The ports of a request under the names of their options.
abbrev named_ports : Ports → List (String × ℤ)
named_ports p =
    ("http-port", p.http) ∷ ("https-port", p.https) ∷ ("http-management-port", p.management) ∷ []

-- The option and the number, for each of the named ports that is above zero and that kc.sh has an option for.
abbrev options_of : OptionSet → List (String × ℤ) → List String
options_of supported [] = []
options_of supported ((flag, n) ∷ more) =
    if has supported flag && ltb 0 (pos_part n)
    then concat ("--" ∷ flag ∷ []) ∷ itoa (pos_part n) ∷ options_of supported more
    else options_of supported more

abbrev pub port_options : ExportRequest → List String
port_options r = options_of r.supported (named_ports r.ports)

not_positive : (n : ℤ) → not (nonpositive n) ≡ ltb 0 (pos_part n)
not_positive (pos n) = ground arith
not_positive (negsuc n) = ground arith

port_arg-options_of :
    (supported : OptionSet) (flag : String) (n : ℤ) (more : List (String × ℤ))
    → port_arg supported flag n ++ options_of supported more
      ≡ options_of supported ((flag, n) ∷ more)
unfolding port_arg
port_arg-options_of supported flag n more = ground (arith, not_positive n)

nothing_known :
    (supported : OptionSet) (more : List (String × ℤ))
    → known supported ≡ false
    → options_of supported more ≡ []
unfolding known has
nothing_known [] [] h = refl
nothing_known [] ((flag, n) ∷ more) h = nothing_known [] more h
nothing_known (o ∷ os) more h = cc

port_args-port_options :
    (supported : OptionSet) (p : Ports)
    → port_args supported p ≡ options_of supported (named_ports p)
unfolding port_args
port_args-port_options supported p = elim (Bool-cases (known supported)) [
  | inr k ↦ rw (k, port_args) (sym (nothing_known supported (named_ports p) k))
  | inl k ↦
      let http = port_arg supported "http-port" p.http in
      let https = port_arg supported "https-port" p.https in
      let management = port_arg supported "http-management-port" p.management in
      let third =
        sym (append_nil management)
        ∙ port_arg-options_of supported "http-management-port" p.management [] in
      let second =
        ap (λ r. https ++ r) third
        ∙ port_arg-options_of supported "https-port" p.https
            (("http-management-port", p.management) ∷ []) in
      let first =
        ap (λ r. http ++ r) second
        ∙ port_arg-options_of supported "http-port" p.http
            (("https-port", p.https) ∷ ("http-management-port", p.management) ∷ []) in
      rw k (append_assoc http https management ∙ first)
]

abbrev pub no_ports : Ports
no_ports = record { http = pos 0; https = pos 0; management = pos 0 }

port_args-no_ports : (supported : OptionSet) → port_args supported no_ports ≡ []
unfolding port_args port_arg
port_args-no_ports supported = elim (Bool-cases (known supported)) [
  | inl k ↦ rw k refl
  | inr k ↦ rw k refl
]

abbrev pub IsPortless : ExportRequest → KcCommand → List String → Type 0
IsPortless r c args =
    build_export (record r { ports = no_ports })
    ≡ ok (record c { args = args; ports_passed = false })

port_args-known :
    (supported : OptionSet) (p : Ports) → (known supported ≡ true) ⊎ (port_args supported p ≡ [])
unfolding port_args
port_args-known supported p = elim (Bool-cases (known supported)) [
  | inl k ↦ inl k
  | inr k ↦ inr (rw k refl)
]

with_options-no_ports :
    (path : String) (args : List String) (supported : OptionSet) (p : Ports)
    (optimized no_timeout : Bool) (extra : List String)
    → with_options path args supported no_ports optimized no_timeout extra
      ≡ (record (with_options path args supported p optimized no_timeout extra) {
        args = args ++ ((if optimized then "--optimized" ∷ [] else []) ++ extra);
        ports_passed = false;
      })
unfolding with_options
with_options-no_ports path args supported p optimized no_timeout extra =
    rw (port_args-no_ports supported, append_nil args) refl

-- The command of a request that BuildExport takes.
abbrev command_of : ExportRequest → KcCommand
command_of r =
    with_options r.kc_path (export_args r) r.supported r.ports r.optimized r.no_transaction_timeout
      r.extra_args

build_export-ok :
    (r : ExportRequest) (c : KcCommand)
    → build_export r ≡ ok c
    → (str_eq r.kc_path "" ≡ false)
      × (str_eq r.realm "" ≡ false)
      × (str_eq r.dir "" ≡ false)
      × (command_of r ≡ c)
unfolding build_export
build_export-ok r c h =
    let (path, h₁) = passed (str_eq r.kc_path "") _ h in
    let (realm, h₂) = passed (str_eq r.realm "") _ h₁ in
    let (dir, h₃) = passed (str_eq r.dir "") _ h₂ in (path, realm, dir, ok-inj h₃)

build_export-command :
    (r : ExportRequest)
    → str_eq r.kc_path "" ≡ false
    → str_eq r.realm "" ≡ false
    → str_eq r.dir "" ≡ false
    → build_export r ≡ ok (command_of r)
unfolding build_export
build_export-command r path realm dir = pass _ _ path ∙ (pass _ _ realm ∙ pass _ _ dir)

-- The command is the one without ports, with the arguments `ports` put in.
abbrev pub AddsOptions : ExportRequest → KcCommand → List String → Type 0
AddsOptions r c ports =
    ((before : List String) × (after : List String) × (c.args ≡ before ++ ports ++ after)
      × IsPortless r c (before ++ after))
    × (c.ports_passed ≡ ltb 0 (length ports))
    × ((known r.supported ≡ true) ⊎ (ports ≡ []))

-- A built export is the export built without ports, with the port options put in: for each of http-port,
-- https-port and http-management-port, in that order, the option and then the number of that port, where
-- the number is above zero and the options that are known of kc.sh have it. There are none where no option
-- is known, and `PortsPassed` tells whether there are any.
pub export_ports_lem :
    (r : ExportRequest) (c : KcCommand) → build_export r ≡ ok c → AddsOptions r c (port_options r)
unfolding build_export with_options
export_ports_lem r c h =
    let (path, realm, dir, same) = build_export-ok r c h in
    let bare =
      build_export-command (record r { ports = no_ports }) path realm dir
      ∙ ap ok (
          with_options-no_ports r.kc_path (export_args r) r.supported r.ports r.optimized
            r.no_transaction_timeout r.extra_args) in
    subst (AddsOptions r c) (port_args-port_options r.supported r.ports) (
      (
        export_args r,
        (if r.optimized then "--optimized" ∷ [] else []) ++ r.extra_args,
        rw (sym same) refl,
        rw (sym same) bare,
      ),
      rw (sym same) refl,
      port_args-known r.supported r.ports,
    )
