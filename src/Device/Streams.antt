-- ===== src/Device/Streams.antt =====
-- A C library for the system in memory: one stream, whose text is kept beside the files.
use deadflash.Base.{refl, sym, ap, true, some, [], ◌++◌, some_inj}
use deadflash.Device.Disk.{disk_os, disk_laws}
use deadflash.Device.Stdio.{Stdio, StdioLaws, TextLaws}

abbrev pub disk_stdio : Stdio disk_os
disk_stdio = record {
  read_text = λ path d. (some d.note, d);
  create = λ path d. (true, record d { note = [] });
  print = λ path text d. (true, record d { note = d.note ++ text });
  fflush = λ path d. (true, d);
  fclose = λ path d. (true, d);
  remove = λ path d. record d { note = [] };
  malloc = λ n d. (true, d);
}

pub disk_stdio_laws : StdioLaws disk_os disk_laws disk_stdio
disk_stdio_laws = record { read_text_content = λ g path w. refl; malloc_content = λ g n w. refl }

pub disk_texts : TextLaws disk_os disk_stdio
disk_texts = record {
  text = λ path d. d.note;
  file = λ path d. d.note;
  text_create = λ path w w' e. sym (ap (λ r. r.1.note) e);
  text_print = λ path written w w' e. sym (ap (λ r. r.1.note) e);
  text_fflush = λ path w w' e. sym (ap (λ r. r.1.note) e);
  file_fclose = λ path w w' e. sym (ap (λ r. r.1.note) e);
  file_close = λ path fd w. refl;
  read_back = λ path got w w' e. sym (some_inj (ap (λ r. r.0) e));
}
