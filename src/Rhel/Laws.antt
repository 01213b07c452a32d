-- ===== src/Rhel/Laws.antt =====
-- internal/infrastructure/network/rhel_adapter.go: which device `findDeviceByMAC` finds.
use multi_network_interface.Prelude.{
  ◌≡◌, refl, sym, ap, ◌∙◌, inl, inr, ◌⊎◌, Bool, true, false, none, some, Option, List, [], ◌∷◌,
  ◌++◌, arith, All, ◌==◌, Bool-cases,
}
use multi_network_interface.Prelude.Text.{
  Text, text, is_empty, trim_space, to_lower, split_on, contains, has_prefix, strip_prefix,
  split_on-cons,
}
use multi_network_interface.Errors.{ok, Result-cases}
use multi_network_interface.Host.{Host}
use multi_network_interface.Host.Queries.{newline}
use multi_network_interface.Rhel.{
  exec_command, is_device_line, second_part, next_device, has_mac, is_hit, scan_devices, found,
  find_device_by_mac,
}

-- A line that names no device.
abbrev pub IsInner : Text → Type 0
IsInner line = is_device_line (trim_space line) ≡ false

-- The lines have a device line that gives the name, and behind it, with no device line between, a
-- line with the address.
pub record Owns (target name : Text) (lines : List Text) : Type 0 where
  pub before : List Text
  pub device_line : Text
  pub between : List Text
  pub ether_line : Text
  pub behind : List Text
  pub is_split : lines ≡ before ++ device_line ∷ (between ++ ether_line ∷ behind)
  pub is_device : is_device_line (trim_space device_line) ≡ true
  pub is_name : next_device [] (trim_space device_line) ≡ name
  pub is_named : is_empty name ≡ false
  pub is_inner : All IsInner between
  pub is_ether : IsInner ether_line
  pub is_mac : has_mac target (trim_space ether_line) ≡ true

-- The lines go on with one of the address before the next device line.
abbrev Goes : Text → List Text → Type 0
Goes target lines =
    (between : List Text) × (line : Text) × (behind : List Text) × (lines
      ≡ between ++ line ∷ behind)
    × All IsInner between
    × IsInner line
    × (has_mac target (trim_space line) ≡ true)

-- The part behind a colon is there.
split_on-colon :
    (s : Text)
    → contains s (text ":") ≡ true
    → (a b : Text) × (rest : List Text) × (split_on b':' s ≡ a ∷ b ∷ rest)
unfolding split_on contains has_prefix strip_prefix
split_on-colon [] h = absurd (ground arith)
split_on-colon (c ∷ s) h = elim (Bool-cases (c == b':')) [
  | inl same ↦ let (w, ws, e) = split_on-cons b':' s in ([], w, ws, rw (same, e))
  | inr other ↦
      let (a, b, rest, e) = split_on-colon s (ground arith) in (c ∷ a, b, rest, rw (other, e))
]

next_device-device :
    (a b line : Text) → is_device_line line ≡ true → next_device a line ≡ next_device b line
unfolding next_device second_part is_device_line
next_device-device a b line h =
    let (x, y, rest, e) = split_on-colon line (ground arith) in rw (h, e)

next_device-inner : (a line : Text) → is_device_line line ≡ false → next_device a line ≡ a
unfolding next_device
next_device-inner a line h = rw h

behind_line :
    {target name : Text} {lines : List Text} (line : Text)
    → Owns target name lines
    → Owns target name (line ∷ lines)
behind_line line owns = record {
  before = line ∷ owns.before;
  device_line = owns.device_line;
  between = owns.between;
  ether_line = owns.ether_line;
  behind = owns.behind;
  is_split = ap (line ∷◌) owns.is_split;
  is_device = owns.is_device;
  is_name = owns.is_name;
  is_named = owns.is_named;
  is_inner = owns.is_inner;
  is_ether = owns.is_ether;
  is_mac = owns.is_mac;
}

scan_devices-Owns :
    (target current name : Text) (lines : List Text)
    → scan_devices target current lines ≡ some name
    → ((current ≡ name) × (is_empty name ≡ false) × Goes target lines) ⊎ Owns target name lines
unfolding scan_devices is_hit
scan_devices-Owns target current name [] h = absurd (cc)
scan_devices-Owns target current name (line ∷ lines) h =
    elim (Bool-cases (is_hit target current (trim_space line))) [
      | inl hit ↦
          inl (ground arith, ground arith, ([], line, lines, refl, tt, ground arith, ground arith))
      | inr miss ↦
          elim (scan_devices-Owns target (next_device current (trim_space line)) name lines
            (ground arith)) [
              | inr owns ↦ inr (behind_line line owns)
              | inl (same, named, (between, ether, behind, split, inner, is_ether, is_mac)) ↦
                  elim (Bool-cases (is_device_line (trim_space line))) [
                    | inl device ↦ inr (record {
                      before = [];
                      device_line = line;
                      between = between;
                      ether_line = ether;
                      behind = behind;
                      is_split = ap (line ∷◌) split;
                      is_device = device;
                      is_name = next_device-device [] current (trim_space line) device ∙ same;
                      is_named = named;
                      is_inner = inner;
                      is_ether = is_ether;
                      is_mac = is_mac;
                    })
                    | inr no_device ↦ inl (
                      sym (next_device-inner current (trim_space line) no_device) ∙ same,
                      named,
                      (
                        line ∷ between,
                        ether,
                        behind,
                        ap (line ∷◌) split,
                        (no_device, inner),
                        is_ether,
                        is_mac,
                      ),
                    )
                  ]
            ]
    ]

found-ok : (mac name : Text) (o : Option Text) → found mac o ≡ ok name → o ≡ some name
unfolding found
found-ok mac name none h = absurd (cc)
found-ok mac name (some n) h = ground arith

-- If a device is found, with or without a container, the command printed lines of which one is a
-- device line with the name that is returned, which is not empty, and behind it, with no device line between, a line
-- that is none has the address.
pub find_device_by_mac-Owns :
    (host : Host) (is_container : Bool) (mac name : Text)
    → find_device_by_mac host is_container mac ≡ ok name
    → (output : Text) × (host.run
          (exec_command is_container (text "ip" ∷ text "link" ∷ text "show" ∷ []))
        ≡ ok output)
      × Owns (to_lower mac) name (split_on newline output)
unfolding find_device_by_mac found
find_device_by_mac-Owns host is_container mac name h =
    elim (Result-cases
      (host.run (exec_command is_container (text "ip" ∷ text "link" ∷ text "show" ∷ [])))) [
        | inr (e, failed) ↦ absurd (ground arith)
        | inl (output, printed) ↦
            let scanned = scan_devices (to_lower mac) [] (split_on newline output) in
            elim (scan_devices-Owns (to_lower mac) [] name (split_on newline output)
              (found-ok mac name scanned (ground arith))) [
                | inl (same, named, _) ↦ absurd (ground (arith, ap is_empty same))
                | inr owns ↦ (output, printed, owns)
              ]
      ]
