-- ===== src/Windows/Usb.antt =====
-- A Windows system with one USB disk, for tests: disk 1 has one MBR partition until its layout is
-- deleted, no volume is mounted, and the program runs from disk 0.
use deadflash.Base.{ℕ, zero, suc, true, none, some, [], ◌∷◌, refl}
use deadflash.Base.Texts.{codes}
use deadflash.Windows.{
  Win, Descriptor, DriveLayout, layout_is, widened, attributes_missing, style_mbr, style_raw,
}
use deadflash.Windows.Kept.{Observed}

abbrev pub one_partition : DriveLayout
one_partition = record {
  style = style_mbr;
  partition_count = 4;
  entries =
      record { number = 1; partition_length = 1000; is_mbr = true; mbr_type = 12 }
      ∷ record { number = 0; partition_length = 0; is_mbr = true; mbr_type = 0 }
      ∷ [];
  signature = 77;
  disk_id = [];
}

abbrev no_partition : DriveLayout
no_partition = record {
  style = style_raw;
  partition_count = 0;
  entries = [];
  signature = 0;
  disk_id = [];
}

-- The layout, by the number of deletions.
abbrev pub usb_layout : ℕ → DriveLayout
usb_layout zero = one_partition
usb_layout (suc n) = no_partition

abbrev usb_descriptor : Descriptor
usb_descriptor = record {
  bytes = codes "????Stick";
  bus_type = 7;
  vendor_offset = 0;
  product_offset = 4;
  revision_offset = 0;
  serial_offset = 0;
}

-- The world is the number of deletions.
abbrev pub usb : Win
usb = record {
  World = ℕ;
  widen = λ p w. (widened, w);
  open_query = λ p w. (some 1, w);
  open_probe = λ p w. (some 1, w);
  open_volume = λ p w. (none, w);
  open_write = λ p b d w. (some 1, w);
  close = λ h w. w;
  sleep = λ n w. w;
  calloc = λ n w. (true, w);
  file_attributes = λ p w. (attributes_missing, w);
  disk_length = λ h w. (some 1000000, w);
  disk_geometry = λ h w. (none, w);
  hotplug_info = λ h w. (some (true, true), w);
  device_descriptor = λ h w. (some usb_descriptor, w);
  alignment_descriptor = λ h w. (none, w);
  is_writable = λ h w. (true, w);
  volume_extents = λ h w. (none, w);
  lock_volume = λ h w. (true, w);
  dismount_volume = λ h w. (true, w);
  unlock_volume = λ h w. (true, w);
  device_number = λ h w. (some 0, w);
  drive_layout = λ h n w. (layout_is (usb_layout w), w);
  delete_layout = λ h w. (true, suc w);
  update_properties = λ h w. (true, w);
  logical_drives = λ w. (0, w);
  windows_directory = λ w. (codes "C:\\Windows", w);
  module_path = λ w. (codes "C:\\deadflash.exe", w);
}

abbrev pub usb_seen : Observed usb ℕ
usb_seen = record {
  seen = λ w. w;
  widen = λ p w. refl;
  open_query = λ p w. refl;
  open_probe = λ p w. refl;
  open_volume = λ p w. refl;
  open_write = λ p b d w. refl;
  close = λ h w. refl;
  sleep = λ n w. refl;
  calloc = λ n w. refl;
  file_attributes = λ p w. refl;
  disk_length = λ h w. refl;
  disk_geometry = λ h w. refl;
  hotplug_info = λ h w. refl;
  device_descriptor = λ h w. refl;
  alignment_descriptor = λ h w. refl;
  is_writable = λ h w. refl;
  volume_extents = λ h w. refl;
  lock_volume = λ h w. refl;
  dismount_volume = λ h w. refl;
  unlock_volume = λ h w. refl;
  device_number = λ h w. refl;
  drive_layout = λ h n w. refl;
  update_properties = λ h w. refl;
  logical_drives = λ w. refl;
  windows_directory = λ w. refl;
  module_path = λ w. refl;
}
