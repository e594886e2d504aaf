-- ===== src/Pci/Match.antt =====
-- Which device `pci_driver_match_device` of drivers/pci/pci.c finds.
use mint.Base.{
  ℕ, zero, suc, ◌<◌, List, [], ◌∷◌, length, Bool, true, false, ◌&&◌, Option, none, some, ◌≡◌, refl,
  sym, arith, ◌==◌, ==_refl, ne→==-false, if◌then◌else◌,
}
use mint.Ring.Chain.{IsChain, IsOutside, IsRing}
use mint.Pci.{
  PciHeader, PciDevice, PciDeviceFilter, Pci, verdict_of, is_set, compare_filter, decide,
  match_from, pci_driver_match_device,
}

-- A filter asks for the two identifiers, for the two classes, or for all four; anything else is no filter.
pub data Wanted : Type 0 where
  identifiers : ℕ → ℕ → Wanted
  classes : ℕ → ℕ → Wanted
  everything : ℕ → ℕ → ℕ → ℕ → Wanted

-- The filter as it is stored, with 0 for what is not asked for.
abbrev pub stored : Wanted → PciDeviceFilter
stored (identifiers v d) = record { vendor_id = suc v; device_id = suc d; class = 0; subclass = 0 }
stored (classes c s) = record { vendor_id = 0; device_id = 0; class = suc c; subclass = suc s }
stored (everything v d c s) = record {
  vendor_id = suc v;
  device_id = suc d;
  class = suc c;
  subclass = suc s;
}

abbrev pub fits : Wanted → PciHeader → Bool
fits (identifiers v d) h = h.vendor_id == suc v && (h.device_id == suc d)
fits (classes c s) h = h.class == suc c && (h.subclass == suc s)
fits (everything v d c s) h =
    h.vendor_id == suc v && (h.device_id == suc d) && (h.class == suc c) && (h.subclass == suc s)

-- The first device of a list that fits.
abbrev pub first_fit : (ℕ → PciDevice) → Wanted → List ℕ → Option ℕ
first_fit devices wanted [] = none
first_fit devices wanted (x ∷ xs) =
    let rest = first_fit devices wanted xs in
    if fits wanted (devices x).header then some x else rest

nonzero : (n : ℕ) → is_set (suc n) ≡ true
nonzero n = rw (ne→==-false (suc n) 0 (λ z. absurd (omega (arith, z)))) refl

compare_filter_lem :
    (w : Wanted) (h : PciHeader) → compare_filter (stored w) h ≡ verdict_of (fits w h)
unfolding compare_filter
compare_filter_lem (identifiers v d) h = rw (nonzero v, nonzero d) refl
compare_filter_lem (classes c s) h = rw (nonzero c, nonzero s) refl
compare_filter_lem (everything v d c s) h = rw (nonzero v, nonzero d, nonzero c, nonzero s) refl

decide_fit :
    (b : Bool) (x : ℕ) (rest : Option ℕ)
    → decide (verdict_of b) x (some rest) ≡ some (if b then some x else rest)
decide_fit true x rest = refl
decide_fit false x rest = refl

search :
    (fuel : ℕ) (pci : Pci) (w : Wanted) (a : ℕ) (xs : List ℕ)
    → IsOutside pci.pci_device_list xs
    → IsChain pci.links a xs pci.pci_device_list
    → length xs < fuel
    → match_from fuel pci (stored w) (pci.links.next a) ≡ some (first_fit pci.devices w xs)
unfolding match_from
search zero pci w a xs o ch lt = absurd (omega arith)
search (suc fuel) pci w a [] o ch lt = rw (ch.0, ==_refl pci.pci_device_list) refl
search (suc fuel) pci w a (x ∷ xs) o ch lt =
    rw
      (
        ch.0,
        ne→==-false x pci.pci_device_list (λ e. o.0 (sym e)),
        search fuel pci w x xs o.1 ch.2 (omega arith),
        compare_filter_lem w (pci.devices x).header,
      )
      (decide_fit (fits w (pci.devices x).header) x (first_fit pci.devices w xs))

-- On a list of devices, `pci_driver_match_device` stops. For a filter that asks for the identifiers, for the
-- classes or for all of them, it returns the first device that has what is asked for, or `NULL`.
pub pci_driver_match_device-first_fit :
    (fuel : ℕ) (pci : Pci) (wanted : Wanted) (xs : List ℕ)
    → IsRing pci.links pci.pci_device_list xs
    → length xs < fuel
    → pci_driver_match_device fuel pci (some (stored wanted))
      ≡ some (first_fit pci.devices wanted xs)
unfolding pci_driver_match_device
pci_driver_match_device-first_fit fuel pci wanted xs ring lt =
    search fuel pci wanted pci.pci_device_list xs ring.outside ring.chain lt
