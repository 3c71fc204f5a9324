-- ===== src/Xprintf/Printed.antt =====
-- snprintf of lib/xprintf.c: it returns, and what it has written.
